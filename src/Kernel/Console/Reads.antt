-- ===== src/Kernel/Console/Reads.antt =====
-- `consoleread` against reading from the list of ready bytes.
use mathlib.Core.Path.{subst}
use xv6_tp.Base.{
  ℕ, zero, suc, ◌+◌, ◌-◌, ◌%◌, ◌^◌, ◌≡◌, Bool, true, false, not, List, [], ◌∷◌, ◌==◌, ltb,
  if◌then◌else◌, Bool-cases, inl, inr, arith, refl, ap, sym, ◌∙◌, ℤ, pos, negsuc,
}
use xv6_tp.Kernel.Console.{
  Cons, input_buf_size, control, ReadTurn, returns, sleeps, with_byte, consoleread,
}
use xv6_tp.Kernel.Console.Ring.{line, line-mod, line-++, Shows}

-- What a turn does to the ready bytes; the last part is what is left of them.
pub data LineTurn : Type 0 where
  answers : ℤ → List ℕ → (left : List ℕ) → LineTurn
  waits : (n : ℕ) → List ℕ → (left : List ℕ) → LineTurn

abbrev pub and_byte : ℕ → LineTurn → LineTurn
and_byte ch (answers x l left) = answers x (ch ∷ l) left
and_byte ch (waits n l left) = waits n (ch ∷ l) left

abbrev pub read_byte : (dst : Bool) (target n ch : ℕ) (l : List ℕ) → LineTurn → LineTurn
read_byte copied target n ch l rest =
    if ch == control 68
    then answers (pos (target - suc n)) [] (if ltb (suc n) target then ch ∷ l else l)
    else if not copied
    then answers (pos (target - suc n)) [] l
    else if ch == 10
    then answers (pos (target - n)) (ch ∷ []) l
    else and_byte ch rest

-- Bytes are taken up to a newline, which is taken too, or a control-D, which is left for the next
-- call if this one has bytes.
pub read_line : (killed : Bool) (dst : ℕ → Bool) (target n : ℕ) → List ℕ → LineTurn
read_line killed dst target zero l = answers (pos target) [] l
read_line killed dst target (suc n) [] =
    if killed then answers (negsuc 0) [] [] else waits (suc n) [] []
read_line killed dst target (suc n) (ch ∷ l) =
    read_byte (dst (target - suc n)) target n ch l (read_line killed dst target n l)

-- The same turn, and the buffer then shows what is left.
pub data Matches (typing : List ℕ) : ReadTurn → LineTurn → Type 0 where
  returned :
      {x : ℤ} {l left : List ℕ} {c : Cons}
      → Shows c left typing
      → Matches typing (returns x l c) (answers x l left)
  slept :
      {n : ℕ} {l left : List ℕ} {c : Cons}
      → Shows c left typing
      → Matches typing (sleeps n l c) (waits n l left)

with_byte-Matches :
    (typing : List ℕ) (ch : ℕ) (t : ReadTurn) (u : LineTurn)
    → Matches typing t u
    → Matches typing (with_byte ch t) (and_byte ch u)
with_byte-Matches typing ch _ _ (returned s) = returned s
with_byte-Matches typing ch _ _ (slept s) = slept s

line-cons :
    (d : ℕ → ℕ) (r k : ℕ) → line d r (suc k) ≡ d (r % input_buf_size) ∷ line d ((r + 1) % 2 ^ 32) k
line-cons d r k =
    let e : suc k ≡ 1 + k = omega arith in
    let at : (r + 0) % input_buf_size ≡ r % input_buf_size = omega arith in
    let m : line d (r + 1) k ≡ line d ((r + 1) % 2 ^ 32) k =
      line-mod d (r + 1) ((r + 1) % 2 ^ 32) k (omega arith) in
    ap (λ (n : ℕ). line d r n) e
    ∙ sym (line-++ d r 1 k)
    ∙ ap (λ (i : ℕ). d i ∷ line d (r + 1) k) at
    ∙ ap (λ (l : List ℕ). d (r % input_buf_size) ∷ l) m

abbrev moved_on : Cons → Cons
moved_on c = record c { r = (c.r + 1) % 2 ^ 32 }

-- One byte is taken.
moved_on-Shows :
    {c : Cons} {ready typing : List ℕ} (s : Shows c ready typing)
    → (k : ℕ) → s.a ≡ suc k
    → Shows (moved_on c) (line c.buf ((c.r + 1) % 2 ^ 32) k) typing
moved_on-Shows {c} s k e = record {
  a = k;
  t = s.t;
  r_small = omega arith;
  w_at = omega (arith, s.w_at, e);
  e_at = s.e_at;
  fits = omega (arith, s.fits, e);
  is_ready = refl;
  is_typing = s.is_typing;
  one_line = s.one_line;
}

same_ready :
    {c : Cons} {ready ready' typing : List ℕ}
    → Shows c ready typing
    → ready ≡ ready'
    → Shows c ready' typing
same_ready {c} {typing = typing} s e = subst (λ (l : List ℕ). Shows c l typing) e s

byte-Matches :
    (killed : Bool) (dst : ℕ → Bool) (target n : ℕ) (c : Cons) (l typing : List ℕ)
    → (c.r == c.w) ≡ false
    → Shows c (c.buf (c.r % input_buf_size) ∷ l) typing
    → Shows (moved_on c) l typing
    → Matches typing
        (consoleread killed dst target n (moved_on c))
        (read_line killed dst target n l)
    → Matches typing
        (consoleread killed dst target (suc n) c)
        (read_line killed dst target (suc n) (c.buf (c.r % input_buf_size) ∷ l))
unfolding consoleread read_line
byte-Matches killed dst target n c l typing some_left s s' rest =
    let ch : ℕ = c.buf (c.r % input_buf_size) in
    elim (Bool-cases (ch == control 68)) [
      | inl eof ↦ elim (Bool-cases (ltb (suc n) target)) [
        | inl kept ↦ rw (some_left, eof, kept) (returned s)
        | inr taken ↦ rw (some_left, eof, taken) (returned s')
      ]
      | inr not_eof ↦ elim (Bool-cases (dst (target - suc n))) [
        | inr failed ↦ rw (some_left, not_eof, failed) (returned s')
        | inl copied ↦ elim (Bool-cases (ch == 10)) [
          | inl line_end ↦ rw (some_left, not_eof, copied, line_end) (returned s')
          | inr not_end ↦
              rw (some_left, not_eof, copied, not_end) (with_byte-Matches typing ch _ _ rest)
        ]
      ]
    ]

-- From a buffer that shows ready bytes and a typed line, a turn of `consoleread` copies, answers
-- or waits as `read_line` does on the ready bytes, and leaves a buffer that shows the bytes
-- that are left and the same typed line.
pub consoleread-Matches :
    (killed : Bool) (dst : ℕ → Bool) (target n : ℕ) (c : Cons) (ready typing : List ℕ)
    → Shows c ready typing
    → Matches typing (consoleread killed dst target n c) (read_line killed dst target n ready)
unfolding consoleread read_line
consoleread-Matches killed dst target zero c ready typing s = returned s
consoleread-Matches killed dst target (suc n) c ready typing s = elim (Bool-cases (s.a == 0)) [
  | inl empty ↦
      let at : s.a ≡ 0 = ground arith in
      let no_more : (c.r == c.w) ≡ true = ground (arith, s.w_at, s.r_small, at) in
      let no_ready : ready ≡ [] = s.is_ready ∙ ap (λ (k : ℕ). line c.buf c.r k) at in
      let shown = same_ready s no_ready in
      let turn : Matches typing (consoleread killed dst target (suc n) c)
          (read_line killed dst target (suc n) []) =
        elim (Bool-cases killed) [
          | inl dies ↦ rw (no_more, dies) (returned shown)
          | inr lives ↦ rw (no_more, lives) (slept shown)
        ] in
      subst
        (λ (x : List ℕ).
          Matches typing (consoleread killed dst target (suc n) c)
            (read_line killed dst target (suc n) x))
        (sym no_ready) turn
  | inr more ↦
      let e : s.a ≡ suc (s.a - 1) = ground arith in
      let some_left : (c.r == c.w) ≡ false = ground (arith, s.w_at, s.r_small, s.fits, more) in
      let l : List ℕ = line c.buf ((c.r + 1) % 2 ^ 32) (s.a - 1) in
      let first : ready ≡ c.buf (c.r % input_buf_size) ∷ l =
        s.is_ready ∙ ap (λ (k : ℕ). line c.buf c.r k) e ∙ line-cons c.buf c.r (s.a - 1) in
      let s' = moved_on-Shows s (s.a - 1) e in
      let rest = consoleread-Matches killed dst target n (moved_on c) l typing s' in
      subst
        (λ (x : List ℕ).
          Matches typing (consoleread killed dst target (suc n) c)
            (read_line killed dst target (suc n) x))
        (sym first)
        (byte-Matches killed dst target n c l typing some_left (same_ready s first) s' rest)
]
