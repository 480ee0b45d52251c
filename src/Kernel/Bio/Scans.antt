-- ===== src/Kernel/Bio/Scans.antt =====
-- The scans of the list of buffers.
use xv6_tp.Base.{
  ℕ, zero, suc, ◌≡◌, ◌≢◌, ◌<◌, Bool, true, false, ◌||◌, none, some, List, [], ◌∷◌, ◌==◌, Bool-cases,
  Option-cases, inl, inr, arith, refl,
}
use xv6_tp.Kernel.Bio.{find_in, find_back, unlink, insert_all}

-- A slot stands in a list.
unfoldable pub stands_in : ℕ → List ℕ → Bool
stands_in b [] = false
stands_in b (c ∷ l) = let rest = stands_in b l in (c == b) || rest

module _ (test : ℕ → Bool) where
  pub find_in-none :
      (l : List ℕ) (b : ℕ) → find_in test l ≡ none → stands_in b l ≡ true → test b ≡ false
  unfolding find_in stands_in
  find_in-none [] b e h = absurd (ground arith)
  find_in-none (c ∷ l) b e h = elim (Bool-cases (test c)) [
    | inl hit ↦ absurd (ground arith)
    | inr miss ↦ elim (Bool-cases (c == b)) [
      | inl here ↦ let at : c ≡ b = ground arith in ground (arith, at, miss)
      | inr there ↦ find_in-none l b (ground arith) (ground arith)
    ]
  ]

  pub find_in_sound :
      (l : List ℕ) (b : ℕ) → find_in test l ≡ some b → (test b ≡ true) × (stands_in b l ≡ true)
  unfolding find_in stands_in
  find_in_sound [] b e = absurd (ground arith)
  find_in_sound (c ∷ l) b e = elim (Bool-cases (test c)) [
    | inl hit ↦ let at : c ≡ b = ground arith in (ground (arith, hit, at), ground (arith, at))
    | inr miss ↦ let (p, q) = find_in_sound l b (ground arith) in (p, ground (arith, q))
  ]

  pub find_back-none :
      (l : List ℕ) (b : ℕ) → find_back test l ≡ none → stands_in b l ≡ true → test b ≡ false
  unfolding find_back stands_in
  find_back-none [] b e h = absurd (ground arith)
  find_back-none (c ∷ l) b e h = elim (Option-cases (find_back test l)) [
    | inr (d, found) ↦ absurd (ground (arith, found))
    | inl rest ↦ elim (Bool-cases (c == b)) [
      | inl here ↦ let at : c ≡ b = ground arith in ground (arith, at, rest)
      | inr there ↦ find_back-none l b rest (ground arith)
    ]
  ]

  pub find_back_sound :
      (l : List ℕ) (b : ℕ) → find_back test l ≡ some b → (test b ≡ true) × (stands_in b l ≡ true)
  unfolding find_back stands_in
  find_back_sound [] b e = absurd (ground arith)
  find_back_sound (c ∷ l) b e = elim (Option-cases (find_back test l)) [
    | inr (d, found) ↦
        let at : d ≡ b = ground (arith, found) in
        let (p, q) = find_back_sound l d found in (ground (arith, p, at), ground (arith, q, at))
    | inl rest ↦
        let at : c ≡ b = ground (arith, rest) in (ground (arith, rest, at), ground (arith, at))
  ]

pub unlink-stands_in : (b c : ℕ) (l : List ℕ) → b ≢ c → stands_in c (unlink b l) ≡ stands_in c l
unfolding unlink stands_in
unlink-stands_in b c [] ne = refl
unlink-stands_in b c (d ∷ l) ne = ground (arith, unlink-stands_in b c l ne)

pub insert_all-stands_in : (n b : ℕ) → b < n → stands_in b (insert_all n) ≡ true
unfolding insert_all stands_in
insert_all-stands_in zero b h = absurd (omega arith)
insert_all-stands_in (suc n) b h = elim (Bool-cases (n == b)) [
  | inl here ↦ ground arith
  | inr there ↦ ground (arith, insert_all-stands_in n b (ground arith))
]
