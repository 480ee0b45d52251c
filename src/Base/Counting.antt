-- ===== src/Base/Counting.antt =====
-- Counted loops, `for(i = 0; i < n; i++) body(i)`, and their invariant rule.
use Prim.Native.Nat.{ℕ, zero, suc, ◌+◌, ◌<◌}
use mathlib.Core.Path.{◌≡◌, subst}
use native.Mathlib.Omega.{arith}

module _ {ℓ} {S : Type ℓ} (body : ℕ → S → S) where
  pub rounds : ℕ → ℕ → S → S
  rounds zero i s = s
  rounds (suc n) i s = rounds n (i + 1) (body i s)

  unfoldable pub for_below : ℕ → S → S
  unfolding rounds
  for_below n s = rounds n 0 s

  rounds_inv {κ} :
      (P : ℕ → S → Type κ) (n i stop : ℕ) (s : S)
      → i + n ≡ stop
      → ((j : ℕ) (t : S) → j < stop → P j t → P (j + 1) (body j t))
      → P i s
      → P stop (rounds n i s)
  unfolding rounds
  rounds_inv P zero i stop s e keep p =
      let e' : i ≡ stop = omega arith in subst (λ (k : ℕ). P k s) e' p
  rounds_inv P (suc n) i stop s e keep p =
      rounds_inv P n (i + 1) stop (body i s) (omega arith) keep (keep i s (omega arith) p)

  -- An invariant of the position and the state holds at the end of the loop.
  pub for_below_inv {κ} :
      (P : ℕ → S → Type κ) (n : ℕ) (s : S)
      → ((j : ℕ) (t : S) → j < n → P j t → P (j + 1) (body j t))
      → P 0 s
      → P n (for_below n s)
  unfolding for_below
  for_below_inv P n s keep p = rounds_inv P n 0 n s (omega arith) keep p
