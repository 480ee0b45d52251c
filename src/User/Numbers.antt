-- ===== src/User/Numbers.antt =====
-- `atoi` reads what `printint` writes.
use xv6_tp.Base.{
  ℕ, zero, suc, ◌+◌, ◌-◌, ◌*◌, ◌%◌, ◌^◌, ◌≤◌, ◌<◌, ◌≡◌, ◌≢◌, Bool, true, false, not, ◌&&◌, ◌==◌,
  if◌then◌else◌, List, [], ◌∷◌, length, arith, refl, ◌∙◌, ap,
}
use xv6_tp.Base.Run.{Run, done, ◌>>=◌}
use xv6_tp.Kernel.Str.{Memory}
use xv6_tp.User.{
  is_digit, Buffer, push, emit, atoi, atoi_loop, printint, magnitude, is_negative, digit_loop,
}
use xv6_tp.User.Digits.{all_digits, first, value, power, text, Digits, digit_loop-Digits, push-emit}

-- The bytes stand in memory, and behind them one that is not a digit.
unfoldable pub holds_text : Memory → ℕ → List ℕ → Bool
holds_text m s [] = not (is_digit (m s))
holds_text m s (c ∷ cs) = m s == c && holds_text m (s + 1) cs

atoi_loop-value :
    (cs : List ℕ) (s fuel n v : ℕ) (m : Memory)
    → all_digits cs ≡ true
    → holds_text m s cs ≡ true
    → length cs ≤ fuel
    → n ≡ v % 2 ^ 32
    → atoi_loop s fuel n m ≡ done (value v cs % 2 ^ 32)
unfolding atoi_loop holds_text all_digits value
atoi_loop-value [] s zero n v m all there le e = ground (arith, there, e)
atoi_loop-value [] s (suc fuel) n v m all there le e = ground (arith, there, e)
atoi_loop-value (c ∷ cs) s zero n v m all there le e = absurd (omega arith)
atoi_loop-value (c ∷ cs) s (suc fuel) n v m all there le e =
    let here : m s ≡ c = ground (arith, there) in
    let is : is_digit (m s) ≡ true = ground (arith, here, all) in
    let next : (n * 10 + m s - 48) % 2 ^ 32 ≡ (v * 10 + (c - 48)) % 2 ^ 32 =
      step n v (m s) c here (ground (arith, is)) e in
    rw is (
      atoi_loop-value cs (s + 1) fuel ((n * 10 + m s - 48) % 2 ^ 32) (v * 10 + (c - 48)) m
        (ground (arith, all)) (ground (arith, there)) (omega arith) next)
  where
    step :
        (n v a c : ℕ)
        → a ≡ c
        → 48 ≤ a
        → n ≡ v % 2 ^ 32
        → (n * 10 + a - 48) % 2 ^ 32 ≡ (v * 10 + (c - 48)) % 2 ^ 32
    step n v a c h lo e = omega arith

length-emit : (i : ℕ) (buf : ℕ → ℕ) → length (emit i buf) ≡ i
unfolding emit
length-emit zero buf = refl
length-emit (suc i) buf = ap suc (length-emit i buf)

-- The bytes with a minus sign in front of them if there is one.
abbrev pub signed : Bool → List ℕ → List ℕ
signed b cs = if b then 45 ∷ cs else cs

abbrev start : Buffer
start = record { buf = λ j. 0; i = 0 }

-- What is written for a number `x` below 2^32 with a minus sign or without one.
Written : (x : ℕ) (neg : Bool) → Type 0
Written x neg =
    (cs : List ℕ) × ((digit_loop 10 32 x start
        >>= (λ b. if neg then push 45 b else done b)
        >>= (λ b. done (emit b.i b.buf)))
      ≡ done (signed neg cs))
    × (length cs ≤ 10)
    × (all_digits cs ≡ true)
    × (48 ≤ first cs)
    × (x ≢ 0 → 48 < first cs)
    × ((s : ℕ) (m : Memory) → holds_text m s cs ≡ true → atoi s 10 m ≡ done x)

writes : (x : ℕ) (neg : Bool) → x < 2 ^ 32 → Written x neg
unfolding Written atoi power emit all_digits value
writes x neg below =
    let r : Digits 10 x start (digit_loop 10 32 x start) =
      digit_loop-Digits 32 10 x start (omega arith) (omega arith) (omega (arith, below))
        (omega arith) refl in
    let long : length (text r.b') ≤ 10 = omega (arith, length-emit r.b'.i r.b'.buf, r.count) in
    let read : (s : ℕ) (m : Memory) → holds_text m s (text r.b') ≡ true → atoi s 10 m ≡ done x =
      λ s m there.
        atoi_loop-value (text r.b') s 10 0 0 m r.digits there long refl
        ∙ ap (λ n. done (n % 2 ^ 32)) r.same
        ∙ ap done (omega (arith, below)) in
    (text r.b', rw r.run (ends neg r.b' r.count), long, r.digits, r.nonempty, r.leads, read)
  where
    ends :
        (neg : Bool) (b : Buffer)
        → b.i ≤ 10
        → ((if neg then push 45 b else done b) >>= (λ b. done (emit b.i b.buf)))
          ≡ done (signed neg (text b))
    ends true b le =
        let (b', pushed, at, out) = push-emit 45 b (omega arith) in
        ap (λ (r : Run Buffer). r >>= (λ b. done (emit b.i b.buf))) pushed ∙ ap done out
    ends false b le = refl

-- `printint` in base 10 ends and does not store behind its buffer, and `atoi` reads the number
-- back: for each 32-bit number, taken as signed or not, there are from 1 to 10 decimal digits, the
-- first of them not 0 unless the number is 0, such that `printint` writes these digits, behind a
-- minus sign exactly if the number is taken as signed and is negative, and `atoi`, at an address
-- where these digits stand before a byte that is not a digit, ends and answers the number without
-- its sign.
pub atoi-printint :
    (xx : ℕ) (sgn : Bool)
    → xx < 2 ^ 32
    → (cs : List ℕ) × (printint xx 10 sgn ≡ done (signed (is_negative xx sgn) cs))
      × (length cs ≤ 10)
      × (all_digits cs ≡ true)
      × (48 ≤ first cs)
      × (magnitude xx sgn ≢ 0 → 48 < first cs)
      × ((s : ℕ) (m : Memory) → holds_text m s cs ≡ true → atoi s 10 m ≡ done (magnitude xx sgn))
unfolding printint Written
atoi-printint xx sgn lt = writes (magnitude xx sgn) (is_negative xx sgn) (ground arith)
