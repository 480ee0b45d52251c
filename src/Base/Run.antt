-- ===== src/Base/Run.antt =====
-- What a call can come to: a result, a panic of the kernel, or more rounds than its loop was given.
pub data Run {ℓ} (A : Type ℓ) : Type ℓ where
  done : A → Run A
  panics : Run A
  out_of_fuel : Run A

infixl 5 ◌>>=◌
abbrev pub ◌>>=◌ {ℓ κ} : {A : Type ℓ} {B : Type κ} → Run A → (A → Run B) → Run B
done a >>= f = f a
panics >>= f = panics
out_of_fuel >>= f = out_of_fuel
