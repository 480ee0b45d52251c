-- ===== src/User/Digits.antt =====
-- The loop of `printint` that puts the digits of a number into its buffer.
use xv6_tp.Base.{
  ℕ, zero, suc, ◌+◌, ◌-◌, ◌*◌, ◌/◌, ◌%◌, ◌≤◌, ◌<◌, ◌≡◌, ◌≢◌, Bool, true, false, ◌&&◌, ◌==◌, ltb,
  List, [], ◌∷◌, update, arith, refl, sym, ◌∙◌, ap, Bool-cases, inl, inr, update_self,
}
use xv6_tp.Base.Run.{Run, done}
use xv6_tp.User.{is_digit, Buffer, buf_size, push, digit, digit_loop, emit}

unfoldable pub all_digits : List ℕ → Bool
all_digits [] = true
all_digits (c ∷ cs) = is_digit c && all_digits cs

-- The number that starts with `n` and goes on with decimal digits.
unfoldable pub value : ℕ → List ℕ → ℕ
value n [] = n
value n (c ∷ cs) = value (n * 10 + (c - 48)) cs

-- The first byte, 0 if there is none.
unfoldable pub first : List ℕ → ℕ
first [] = 0
first (c ∷ cs) = c

unfoldable pub power : ℕ → ℕ
power zero = 1
power (suc k) = 10 * power k

abbrev pub text : Buffer → List ℕ
text b = emit b.i b.buf

emit-update : (i j c : ℕ) (buf : ℕ → ℕ) → i ≤ j → emit i (update buf j c) ≡ emit i buf
unfolding emit
emit-update zero j c buf le = refl
emit-update (suc i) j c buf le =
    let other : (j == i) ≡ false = ground arith in
    rw (other, emit-update i j c buf (omega arith)) refl

-- A byte that is pushed is written first.
pub push-emit :
    (c : ℕ) (b : Buffer)
    → b.i < buf_size
    → (b' : Buffer) × (push c b ≡ done b') × (b'.i ≡ b.i + 1) × (text b' ≡ c ∷ text b)
unfolding push emit
push-emit c b lt =
    let fits : ltb b.i buf_size ≡ true = ground arith in
    let b' : Buffer = record { buf = update b.buf b.i c; i = b.i + 1 } in
    let next : b.i + 1 ≡ suc b.i = omega arith in
    let kept : emit b.i b'.buf ≡ text b = emit-update b.i b.i c b.buf (omega arith) in
    (
      b',
      rw fits refl,
      refl,
      ap (λ i. emit i b'.buf) next
          ∙ ap (λ x. x ∷ emit b.i b'.buf) (update_self b.buf b.i c)
          ∙ ap (λ l. c ∷ l) kept,
    )

-- The loop ends; the digits it has put in front of those it found go on with the number.
pub record Digits (k x : ℕ) (b : Buffer) (r : Run Buffer) : Type 0 where
  pub b' : Buffer
  pub run : r ≡ done b'
  pub count : b'.i ≤ b.i + k
  pub digits : all_digits (text b') ≡ true
  pub nonempty : 48 ≤ first (text b')
  pub leads : x ≢ 0 → 48 < first (text b')
  pub same : value 0 (text b') ≡ value x (text b)

less-power :
    (k x : ℕ)
    → x < power k
    → (x / 10 == 0) ≡ false
    → (h : ℕ) × (k ≡ suc h) × (0 < h) × (x / 10 < power h)
unfolding power
less-power zero x lt more = absurd (ground (arith, lt, more))
less-power (suc zero) x lt more = absurd (ground (arith, lt, more))
less-power (suc (suc k)) x lt more = (suc k, refl, omega arith, omega (arith, lt))

pub digit_loop-Digits :
    (fuel k x : ℕ) (b : Buffer)
    → k < fuel
    → 0 < k
    → x < power k
    → b.i + k ≤ buf_size
    → all_digits (text b) ≡ true
    → Digits k x b (digit_loop 10 fuel x b)
unfolding digit_loop all_digits value first
digit_loop-Digits zero k x b lt pos_k small fits all = absurd (omega arith)
digit_loop-Digits (suc fuel) k x b lt pos_k small fits all =
    let (b1, pushed, at, out) = push-emit (digit (x % 10)) b (omega arith) in
    let low : ltb (x % 10) 10 ≡ true = ground arith in
    let is : is_digit (digit (x % 10)) ≡ true = ground arith in
    let all1 : all_digits (text b1) ≡ true = rw out (ground (arith, is, all)) in
    let back : x / 10 * 10 + (digit (x % 10) - 48) ≡ x = ground arith in
    let same1 : value (x / 10) (text b1) ≡ value x (text b) =
      rw out (ap (λ n. value n (text b)) back) in
    elim (Bool-cases (x / 10 == 0)) [
      | inl last ↦
          let z : x / 10 ≡ 0 = ground (arith, last) in
          record {
            b' = b1;
            run = rw (pushed, last) refl;
            count = omega (arith, at);
            digits = all1;
            nonempty = rw out (ground arith);
            leads = λ nz. rw out (ground (arith, z, nz));
            same = ap (λ n. value n (text b1)) (sym z) ∙ same1;
          }
      | inr more ↦
          let (h, e, pos_h, less) = less-power k x small more in
          let rest =
            digit_loop-Digits fuel h (x / 10) b1 (omega arith) pos_h less
              (omega (arith, at, e, fits)) all1 in
          record {
            b' = rest.b';
            run = rw (pushed, more) rest.run;
            count = omega (arith, at, e, rest.count);
            digits = rest.digits;
            nonempty = rest.nonempty;
            leads = λ nz. rest.leads (λ z. absurd (ground (arith, z, more)));
            same = rest.same ∙ same1;
          }
    ]
