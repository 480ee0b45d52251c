-- ===== src/Kernel/Console/Ring.antt =====
-- What the input buffer holds: whole lines that are ready, and the line that is being typed.
use xv6_tp.Base.{
  ℕ, zero, suc, ◌+◌, ◌%◌, ◌^◌, ◌≡◌, ◌≢◌, ◌≤◌, ◌<◌, List, [], ◌∷◌, ◌++◌, append-nil, append_assoc,
  ◌==◌, length, length-append, arith, refl, ap, sym, ◌∙◌, update,
}
use xv6_tp.Kernel.Console.{Cons, input_buf_size, held}

-- The `n` bytes from counter value `i` on.
abbrev pub line : (ℕ → ℕ) → ℕ → ℕ → List ℕ
line d i zero = []
line d i (suc n) = line d i n ++ (d ((i + n) % input_buf_size) ∷ [])

pub length-line : (d : ℕ → ℕ) (i n : ℕ) → length (line d i n) ≡ n
length-line d i zero = refl
length-line d i (suc n) =
    length-append (line d i n) (d ((i + n) % input_buf_size) ∷ [])
    ∙ omega (arith, length-line d i n)

pub line-mod :
    (d : ℕ → ℕ) (i j n : ℕ) → i % input_buf_size ≡ j % input_buf_size → line d i n ≡ line d j n
line-mod d i j zero e = refl
line-mod d i j (suc n) e =
    let at : (i + n) % input_buf_size ≡ (j + n) % input_buf_size = omega arith in
    rw (at, line-mod d i j n e) refl

pub line-++ : (d : ℕ → ℕ) (i a n : ℕ) → line d i a ++ line d (i + a) n ≡ line d i (a + n)
line-++ d i a zero =
    let e : a ≡ a + 0 = omega arith in append-nil (line d i a) ∙ ap (λ (k : ℕ). line d i k) e
line-++ d i a (suc n) =
    let at : (i + a + n) % input_buf_size ≡ (i + (a + n)) % input_buf_size = omega arith in
    let e : suc (a + n) ≡ a + suc n = omega arith in
    sym (append_assoc (line d i a) (line d (i + a) n) (d ((i + a + n) % input_buf_size) ∷ []))
    ∙ rw (line-++ d i a n, at) refl
    ∙ ap (λ (k : ℕ). line d i k) e

-- A byte is stored outside a part of the ring.
pub line-update :
    (d : ℕ → ℕ) (ch i k n : ℕ)
    → n ≤ k
    → k < input_buf_size
    → line (update d ((i + k) % input_buf_size) ch) i n ≡ line d i n
line-update d ch i k zero le lt = refl
line-update d ch i k (suc n) le lt =
    let away : update d ((i + k) % input_buf_size) ch ((i + n) % input_buf_size)
        ≡ d ((i + n) % input_buf_size) =
      ground arith in
    rw (away, line-update d ch i k n (omega arith) lt) refl

-- `r` up to `w` is ready and `w` up to `e` is being typed, with no newline.
pub record Shows (c : Cons) (ready typing : List ℕ) : Type 0 where
  pub a : ℕ
  pub t : ℕ
  pub r_small : c.r < 2 ^ 32
  pub w_at : c.w ≡ (c.r + a) % 2 ^ 32
  pub e_at : c.e ≡ (c.w + t) % 2 ^ 32
  pub fits : a + t ≤ input_buf_size
  pub is_ready : ready ≡ line c.buf c.r a
  pub is_typing : typing ≡ line c.buf c.w t
  pub one_line : (k : ℕ) → k < t → c.buf ((c.w + k) % input_buf_size) ≢ 10

pub held-Shows : {c : Cons} {ready typing : List ℕ} (s : Shows c ready typing) → held c ≡ s.a + s.t
held-Shows {c} s = omega (arith, s.r_small, s.w_at, s.e_at, s.fits)

pub empty-Shows :
    {c : Cons} {ready typing : List ℕ} (s : Shows c ready typing) → (c.e == c.w) ≡ (s.t == 0)
empty-Shows {c} s = ground (arith, s.r_small, s.w_at, s.e_at, s.fits)
