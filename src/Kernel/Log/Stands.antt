-- ===== src/Kernel/Log/Stands.antt =====
-- What a disk with a log stands for: the specification of kernel/log.c.
use xv6_tp.Base.{
  ℕ, ◌+◌, ◌≤◌, ◌<◌, ◌≡◌, ◌≢◌, ◌⊎◌, inl, inr, Option-cases, ◌==◌, arith, find_first,
  find_first_sound, find_first-none, IsFirst,
}
use xv6_tp.Kernel.Log.{Block, log_size_max}

-- A block outside the log: neither its header nor one of its copies.
abbrev pub Home : ℕ → ℕ → Type 0
Home start b = (b < start) ⊎ (start + log_size_max < b)

-- The disk `d` stands for the blocks `v`: where the header lists a block, its copy in the log is
-- that block; every other block is in place. A header with 0 in its first word lists none.
pub record Stands (start : ℕ) (v d : ℕ → Block) : Type 0 where
  pub few : d start 0 ≤ log_size_max
  pub home : (i : ℕ) → i < d start 0 → Home start (d start (i + 1))
  pub copies : (i : ℕ) → i < d start 0 → d (start + i + 1) ≡ v (d start (i + 1))
  pub rest : (b : ℕ) → Home start b → ((i : ℕ) → i < d start 0 → d start (i + 1) ≢ b) → d b ≡ v b

-- Every block outside the log is in place.
abbrev pub InPlace : ℕ → (v d : ℕ → Block) → Type 0
InPlace start v d = (b : ℕ) → Home start b → d b ≡ v b

pub listed_or_not :
    (blocks : ℕ → ℕ) (n b : ℕ)
    → ((i : ℕ) × (i < n) × (blocks i ≡ b)) ⊎ ((i : ℕ) → i < n → blocks i ≢ b)
listed_or_not blocks n b = elim (Option-cases (find_first (λ i. blocks i == b) n)) [
  | inl e ↦ inr (λ i h. ground (arith, find_first-none (λ k. blocks k == b) n e i h))
  | inr (i, e) ↦
      let r : IsFirst (λ k. blocks k == b) 0 n i = find_first_sound _ n i e in
      inl (i, omega (arith, r.below), ground (arith, r.passes))
]

pub Stands-of_empty :
    {start : ℕ} {v d : ℕ → Block} → d start 0 ≡ 0 → InPlace start v d → Stands start v d
Stands-of_empty z p = record {
  few = omega arith;
  home = λ i h. absurd (omega arith);
  copies = λ i h. absurd (omega arith);
  rest = λ b h out. p b h;
}
