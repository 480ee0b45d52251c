-- ===== src/Base/Scan.antt =====
-- `for(i = 0; i < n; i++) if(test(i)) ...`: the first position of an array that passes a test.
use Prim.Native.Nat.{ℕ, zero, suc, ◌+◌, ◌≤◌, ◌<◌}
use mathlib.Core.Path.{◌≡◌}
use mathlib.Core.Bool.{Bool, true, false}
use mathlib.Core.Logic.{inl, inr}
use mathlib.Core.Option.{Option, none, some}
use native.Mathlib.Omega.{arith}
use xv6_tp.Base.Tests.{Bool-cases, if◌then◌else◌, ltb}
use xv6_tp.Base.Int.{ℤ, pos, negsuc}

-- `n` rounds, from position `i` on.
pub find_from : (ℕ → Bool) → ℕ → ℕ → Option ℕ
find_from test zero i = none
find_from test (suc n) i = let rest = find_from test n (i + 1) in if test i then some i else rest

unfoldable pub find_first : (ℕ → Bool) → ℕ → Option ℕ
unfolding find_from
find_first test n = find_from test n 0

-- What a scan that stopped at `j` knows.
pub record IsFirst (test : ℕ → Bool) (i n j : ℕ) : Type 0 where
  pub from : i ≤ j
  pub below : j < i + n
  pub passes : test j ≡ true
  pub before : (k : ℕ) → i ≤ k → k < j → test k ≡ false

module _ (test : ℕ → Bool) where
  find_from_sound : (n i j : ℕ) → find_from test n i ≡ some j → IsFirst test i n j
  unfolding find_from
  find_from_sound zero i j e = absurd (ground arith)
  find_from_sound (suc n) i j e = elim (Bool-cases (test i)) [
    | inl hit ↦
        let here : i ≡ j = ground arith in
        record {
          from = omega arith;
          below = omega arith;
          passes = ground arith;
          before = λ k lo hi. absurd (omega arith);
        }
    | inr miss ↦
        let r : IsFirst test (i + 1) n j = find_from_sound n (i + 1) j (ground arith) in
        record {
          from = omega (arith, r.from);
          below = omega (arith, r.below);
          passes = r.passes;
          before = λ k lo hi. grind (arith, r.before, miss);
        }
  ]

  find_from-none :
      (n i : ℕ) → find_from test n i ≡ none → (k : ℕ) → i ≤ k → k < i + n → test k ≡ false
  unfolding find_from
  find_from-none zero i e k lo hi = absurd (omega arith)
  find_from-none (suc n) i e k lo hi = elim (Bool-cases (test i)) [
    | inl hit ↦ absurd (ground arith)
    | inr miss ↦ grind (arith, find_from-none n (i + 1) (ground arith))
  ]

  find_from-reaches :
      (n i j : ℕ)
      → i ≤ j
      → j < i + n
      → test j ≡ true
      → ((k : ℕ) → i ≤ k → k < j → test k ≡ false)
      → find_from test n i ≡ some j
  unfolding find_from
  find_from-reaches zero i j lo hi hit before = absurd (omega arith)
  find_from-reaches (suc n) i j lo hi hit before = elim (Bool-cases (test i)) [
    | inl now ↦ ground (arith, before i)
    | inr later ↦ ground (
      arith,
      find_from-reaches n (i + 1) j (ground arith) (omega arith) hit
          (λ k l h. before k (omega arith) h),
    )
  ]

  pub find_first_sound : (n j : ℕ) → find_first test n ≡ some j → IsFirst test 0 n j
  unfolding find_first
  find_first_sound n j e = find_from_sound n 0 j e

  pub find_first-none : (n : ℕ) → find_first test n ≡ none → (k : ℕ) → k < n → test k ≡ false
  unfolding find_first
  find_first-none n e k h = find_from-none n 0 e k (omega arith) (omega arith)

  pub find_first-reaches :
      (n j : ℕ)
      → j < n
      → test j ≡ true
      → ((k : ℕ) → k < j → test k ≡ false)
      → find_first test n ≡ some j
  unfolding find_first
  find_first-reaches n j h hit before =
      find_from-reaches n 0 j (omega arith) (omega arith) hit (λ k l. before k)

-- A signed index that a caller passes in: nothing if `x < 0 || x >= n`.
abbrev pub array_index : ℕ → ℤ → Option ℕ
array_index n (negsuc k) = none
array_index n (pos i) = if ltb i n then some i else none
