-- ===== src/Kernel/Block/Bits.antt =====
-- One bit of the bitmap changes, the others stay.
use Prim.Native.Nat.{bit_and, bit_or}
use xv6_tp.Base.{
  ℕ, zero, suc, ◌-◌, ◌/◌, ◌%◌, ◌^◌, ◌<◌, ◌≡◌, Bool, true, false, not, ◌&&◌, ◌==◌, if◌then◌else◌,
  arith, refl, ltb, Bool-cases, inl, inr, ==_iff, ap, ◌∙◌,
}
use xv6_tp.Kernel.Block.{is_free, mark_used, mark_free}

-- A test that holds at every number below `n`.
unfoldable pub holds_below : (ℕ → Bool) → ℕ → Bool
holds_below test zero = true
holds_below test (suc n) = holds_below test n && test n

pub at_below : (test : ℕ → Bool) {n k : ℕ} → holds_below test n ≡ true → k < n → test k ≡ true
unfolding holds_below
at_below test {n = zero} e h = absurd (omega arith)
at_below test {n = suc n} {k = k} e h = elim (Bool-cases (ltb k n)) [
  | inl lower ↦ at_below test {n = n} (ground (arith, e)) (ground arith)
  | inr last ↦ let here : k ≡ n = ground arith in ap test here ∙ ground (arith, e)
]

abbrev same : Bool → Bool → Bool
same a b = if a then b else not b

abbrev bit_free : ℕ → ℕ → Bool
bit_free x k = bit_and x (2 ^ k) == 0

abbrev or_law : ℕ → ℕ → ℕ → Bool
or_law k j x =
    same (bit_free (bit_or x (2 ^ k)) j) (if j == k then false else bit_free x j)
    && ltb (bit_or x (2 ^ k)) 256

abbrev or_table : Bool
or_table = holds_below (λ k. holds_below (λ j. holds_below (or_law k j) 256) 8) 8

or_holds : or_table ≡ true
unfolding holds_below
or_holds = refl

abbrev and_law : ℕ → ℕ → ℕ → Bool
and_law k j x =
    same (bit_free (bit_and x (2 ^ 8 - 1 - 2 ^ k)) j) (if j == k then true else bit_free x j)
    && ltb (bit_and x (2 ^ 8 - 1 - 2 ^ k)) 256

abbrev and_table : Bool
and_table = holds_below (λ k. holds_below (λ j. holds_below (and_law k j) 256) 8) 8

and_holds : and_table ≡ true
unfolding holds_below
and_holds = refl

table_at :
    (law : ℕ → ℕ → ℕ → Bool) (k j x : ℕ)
    → holds_below (λ k. holds_below (λ j. holds_below (law k j) 256) 8) 8 ≡ true
    → k < 8
    → j < 8
    → x < 256
    → law k j x ≡ true
table_at law k j x h hk hj hx =
    let at_k = at_below (λ k. holds_below (λ j. holds_below (law k j) 256) 8) h hk in
    let at_j = at_below (λ j. holds_below (law k j) 256) at_k hj in at_below (law k j) at_j hx

both : (a b : Bool) {c : Bool} → (same a b && c) ≡ true → (a ≡ b) × (c ≡ true)
both true b h = (ground arith, ground arith)
both false b h = (ground arith, ground arith)

or_bit :
    (k j x : ℕ)
    → k < 8
    → j < 8
    → x < 256
    → (bit_free (bit_or x (2 ^ k)) j ≡ (if j == k then false else bit_free x j))
      × (ltb (bit_or x (2 ^ k)) 256 ≡ true)
or_bit k j x hk hj hx = both _ _ (table_at or_law k j x or_holds hk hj hx)

and_bit :
    (k j x : ℕ)
    → k < 8
    → j < 8
    → x < 256
    → (bit_free (bit_and x (2 ^ 8 - 1 - 2 ^ k)) j ≡ (if j == k then true else bit_free x j))
      × (ltb (bit_and x (2 ^ 8 - 1 - 2 ^ k)) 256 ≡ true)
and_bit k j x hk hj hx = both _ _ (table_at and_law k j x and_holds hk hj hx)

-- A block of bytes.
abbrev pub Bytes : (ℕ → ℕ) → Type 0
Bytes block = (i : ℕ) → block i < 256

module _ (block : ℕ → ℕ) (h : Bytes block) where
  pub is_free-mark_used :
      (i j : ℕ) → is_free (mark_used block i) j ≡ (if j == i then false else is_free block j)
  is_free-mark_used i j = elim (Bool-cases (j / 8 == i / 8)) [
    | inr apart ↦ ground arith
    | inl near ↦
        let e : j / 8 ≡ i / 8 = (==_iff _ _).0 near in
        let bits =
          (or_bit (i % 8) (j % 8) (block (i / 8)) (omega arith) (omega arith) (h (i / 8))).0 in
        let place : (j % 8 == i % 8) ≡ (j == i) = ground arith in
        let now : mark_used block i (j / 8) ≡ bit_or (block (i / 8)) (2 ^ (i % 8)) = ground arith in
        let was : block (j / 8) ≡ block (i / 8) = ap block e in rw (now, was, bits, place) refl
  ]

  pub is_free-mark_free :
      (i j : ℕ) → is_free (mark_free block i) j ≡ (if j == i then true else is_free block j)
  is_free-mark_free i j = elim (Bool-cases (j / 8 == i / 8)) [
    | inr apart ↦ ground arith
    | inl near ↦
        let e : j / 8 ≡ i / 8 = (==_iff _ _).0 near in
        let bits =
          (and_bit (i % 8) (j % 8) (block (i / 8)) (omega arith) (omega arith) (h (i / 8))).0 in
        let place : (j % 8 == i % 8) ≡ (j == i) = ground arith in
        let now : mark_free block i (j / 8) ≡ bit_and (block (i / 8)) (2 ^ 8 - 1 - 2 ^ (i % 8)) =
          ground arith in
        let was : block (j / 8) ≡ block (i / 8) = ap block e in rw (now, was, bits, place) refl
  ]

  pub mark_used-Bytes : (i : ℕ) → Bytes (mark_used block i)
  mark_used-Bytes i j =
      let b = (or_bit (i % 8) 0 (block (i / 8)) (omega arith) (omega arith) (h (i / 8))).1 in
      ground (arith, b, h j)

  pub mark_free-Bytes : (i : ℕ) → Bytes (mark_free block i)
  mark_free-Bytes i j =
      let b = (and_bit (i % 8) 0 (block (i / 8)) (omega arith) (omega arith) (h (i / 8))).1 in
      ground (arith, b, h j)
