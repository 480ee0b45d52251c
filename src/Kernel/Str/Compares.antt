-- ===== src/Kernel/Str/Compares.antt =====
-- `memcmp`, `strncmp` and `strlen`.
use xv6_tp.Base.{
  ℕ, zero, suc, ◌+◌, ◌-◌, ◌≡◌, ◌≢◌, ◌≤◌, ◌<◌, ◌↔◌, inl, inr, not, ◌&&◌, ◌==◌, Bool-cases, arith,
  refl, ap, sym, ◌∙◌, pos, sub_ℕ,
}
use xv6_tp.Base.Run.{done}
use xv6_tp.Kernel.Str.{Memory, strncmp, strlen, strlen_loop}

sub-zero : (a b : ℕ) → sub_ℕ a b ≡ pos 0 → a ≡ b
sub-zero a b e = ground arith

-- The two strings agree in each of their first `n` bytes up to and including a 0.
abbrev pub Agree : (p q n : ℕ) → Memory → Type 0
Agree p q n m = (i : ℕ) → i < n → ((j : ℕ) → j < i → m (p + j) ≢ 0) → m (p + i) ≡ m (q + i)

module _ (m : Memory) where
  shift : (p j : ℕ) → m (p + (j + 1)) ≡ m (p + 1 + j)
  shift p j = ap m (omega arith)

  at_next : (p i : ℕ) → 0 < i → m (p + i) ≡ m (p + 1 + (i - 1))
  at_next p i h = ap m (omega arith)

strncmp_sound : (p q n : ℕ) (m : Memory) → strncmp p q n m ≡ pos 0 → Agree p q n m
unfolding strncmp
strncmp_sound p q zero m e i h before = absurd (omega arith)
strncmp_sound p q (suc n) m e i h before = elim (Bool-cases (not (m p == 0) && m p == m q)) [
  | inr stops ↦
      let same : m p ≡ m q = sub-zero (m p) (m q) (ground (arith, e, stops)) in
      elim (Bool-cases (i == 0)) [
        | inl first ↦ let at : i ≡ 0 = ground arith in ground (arith, at, same)
        | inr later ↦
            let nz : m (p + 0) ≢ 0 = before 0 (ground arith) in
            absurd (ground (arith, nz, same, stops))
      ]
  | inl goes ↦ elim (Bool-cases (i == 0)) [
    | inl first ↦ let at : i ≡ 0 = ground arith in ground (arith, at, goes)
    | inr later ↦
        let ih : m (p + 1 + (i - 1)) ≡ m (q + 1 + (i - 1)) =
          strncmp_sound (p + 1) (q + 1) n m (ground (arith, e, goes)) (i - 1) (ground arith)
            (λ j l z. before (j + 1) (ground arith) (shift m p j ∙ z)) in
        at_next m p i (ground arith) ∙ ih ∙ sym (at_next m q i (ground arith))
  ]
]

strncmp_reaches : (p q n : ℕ) (m : Memory) → Agree p q n m → strncmp p q n m ≡ pos 0
unfolding strncmp
strncmp_reaches p q zero m h = refl
strncmp_reaches p q (suc n) m h =
    let same : m p ≡ m q =
      ap m (omega arith)
      ∙ h 0 (omega arith) (λ j l. absurd (omega (arith, l)))
      ∙ ap m (omega arith) in
    elim (Bool-cases (m p == 0)) [
      | inl ends ↦ ground (arith, same)
      | inr goes ↦
          let rest : Agree (p + 1) (q + 1) n m = λ i l before.
            sym (shift m p i)
            ∙ h (i + 1) (omega (arith, l)) (λ j k. elim (Bool-cases (j == 0)) [
              | inl first ↦
                  let at : p + j ≡ p = ground arith in
                  λ z. absurd (ground (arith, ap m at, z, goes))
              | inr later ↦
                  λ z. before (j - 1) (ground arith) (sym (at_next m p j (ground arith)) ∙ z)
            ])
            ∙ shift m q i in
          ground (arith, strncmp_reaches (p + 1) (q + 1) n m rest, same)
    ]

-- `strncmp` answers 0 exactly when the strings agree in each of their first `n` bytes up to and
-- including a 0 of the first.
pub strncmp-Agree : (p q n : ℕ) (m : Memory) → (strncmp p q n m ≡ pos 0) ↔ Agree p q n m
strncmp-Agree p q n m = (strncmp_sound p q n m, strncmp_reaches p q n m)

strlen_loop-finds :
    (s fuel n k : ℕ) (m : Memory)
    → n ≤ k
    → k < n + fuel
    → m (s + k) ≡ 0
    → ((j : ℕ) → n ≤ j → j < k → m (s + j) ≢ 0)
    → strlen_loop s fuel n m ≡ done k
unfolding strlen_loop
strlen_loop-finds s zero n k m lo hi e before = absurd (omega arith)
strlen_loop-finds s (suc fuel) n k m lo hi e before = elim (Bool-cases (n == k)) [
  | inl here ↦ let at : n ≡ k = ground arith in ground (arith, at, e)
  | inr later ↦
      let nz : m (s + n) ≢ 0 = before n (omega arith) (ground arith) in
      ground (
        arith,
        nz,
        strlen_loop-finds s fuel (n + 1) k m (ground arith) (omega arith) e
            (λ j l. before j (omega arith)),
      )
]

-- If the first 0 of a string is at position `k`, `strlen` ends, in `k + 1` rounds, and answers `k`.
pub strlen-finds :
    (s fuel k : ℕ) (m : Memory)
    → k < fuel
    → m (s + k) ≡ 0
    → ((j : ℕ) → j < k → m (s + j) ≢ 0)
    → strlen s fuel m ≡ done k
unfolding strlen
strlen-finds s fuel k m h e before =
    strlen_loop-finds s fuel 0 k m (omega arith) (omega arith) e (λ j l. before j)
