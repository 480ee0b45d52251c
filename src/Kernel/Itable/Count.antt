-- ===== src/Kernel/Itable/Count.antt =====
-- The table as a count of references for each inode, and a change of one slot.
use xv6_tp.Base.{
  ℕ, ◌<◌, ◌≡◌, ◌≢◌, ◌⊎◌, true, false, ◌&&◌, ◌==◌, ltb, Option, none, some, if◌then◌else◌, arith,
  refl, Bool-cases, Option-cases, inl, inr, ==_iff, sym, ◌∙◌, ap, find_first, find_first_sound,
  find_first-none,
}
use xv6_tp.Kernel.Inode.{Inode}
use xv6_tp.Kernel.Itable.{ninode, matches}

-- Two slots in use have different inodes.
abbrev pub IsTable : (ℕ → Inode) → Type 0
IsTable t =
    (i j : ℕ)
    → i < ninode
    → j < ninode
    → (t i).ref ≢ 0
    → (t j).ref ≢ 0
    → (t i).dev ≡ (t j).dev
    → (t i).inum ≡ (t j).inum
    → i ≡ j

abbrev pub refs_of : (ℕ → Inode) → Option ℕ → ℕ
refs_of t none = 0
refs_of t (some i) = (t i).ref

-- The references to an inode.
pub count : (ℕ → Inode) → (dev inum : ℕ) → ℕ
count t dev inum = refs_of t (find_first (matches t dev inum) ninode)

pub matches_slot :
    (t : ℕ → Inode) (dev inum i : ℕ)
    → matches t dev inum i ≡ true
    → ((t i).ref ≢ 0) × ((t i).dev ≡ dev) × ((t i).inum ≡ inum)
matches_slot t dev inum i e = (ground (arith, e), ground (arith, e), ground (arith, e))

pub count-none :
    (t : ℕ → Inode) (dev inum : ℕ)
    → ((i : ℕ) → i < ninode → matches t dev inum i ≡ false)
    → count t dev inum ≡ 0
unfolding count
count-none t dev inum h = elim (Option-cases (find_first (matches t dev inum) ninode)) [
  | inl e ↦ rw e refl
  | inr (i, e) ↦
      let f = find_first_sound (matches t dev inum) ninode i e in
      absurd (ground (arith, f.passes, h i (omega (arith, f.below))))
]

pub count-some :
    (t : ℕ → Inode) (dev inum i : ℕ)
    → IsTable t
    → i < ninode
    → matches t dev inum i ≡ true
    → count t dev inum ≡ (t i).ref
unfolding count
count-some t dev inum i u lt m = elim (Option-cases (find_first (matches t dev inum) ninode)) [
  | inl e ↦ absurd (ground (arith, m, find_first-none (matches t dev inum) ninode e i lt))
  | inr (j, e) ↦
      let f = find_first_sound (matches t dev inum) ninode j e in
      let (r, p, q) = matches_slot t dev inum i m in
      let (r', p', q') = matches_slot t dev inum j f.passes in
      let same : j ≡ i = u j i (omega (arith, f.below)) lt r' r (p' ∙ sym p) (q' ∙ sym q) in
      rw e (ap (λ j. (t j).ref) same)
]

-- A slot changes: it was free or had the same inode, no other slot has this inode, and it has `r`
-- references now.
pub record Changes (t t' : ℕ → Inode) (i dev inum r : ℕ) : Type 0 where
  pub below : i < ninode
  pub at_dev : (t' i).dev ≡ dev
  pub at_inum : (t' i).inum ≡ inum
  pub at_ref : (t' i).ref ≡ r
  pub before : ((t i).ref ≡ 0) ⊎ (((t i).dev ≡ dev) × ((t i).inum ≡ inum))
  pub others : (j : ℕ) → i ≢ j → t' j ≡ t j
  pub alone : (j : ℕ) → j < ninode → i ≢ j → matches t dev inum j ≡ false

module _ (t t' : ℕ → Inode) (i dev inum r : ℕ) (u : IsTable t) (c : Changes t t' i dev inum r) where
  same_match : (dev' inum' j : ℕ) → i ≢ j → matches t' dev' inum' j ≡ matches t dev' inum' j
  same_match dev' inum' j ne =
      ap (λ (x : Inode). ltb 0 x.ref && x.dev == dev' && x.inum == inum') (c.others j ne)

  -- A slot other than `i` with the inode of slot `i`, both in use.
  no_twin : (j : ℕ) → j < ninode → i ≢ j → (t' j).ref ≢ 0 → (t' j).dev ≡ dev → (t' j).inum ≢ inum
  no_twin j lt ne nz d n =
      let m : matches t' dev inum j ≡ true = ground (arith, nz, d, n) in
      absurd (ground (arith, m, same_match dev inum j ne, c.alone j lt ne))

  pub Changes-IsTable : IsTable t'
  Changes-IsTable j k lt lt' nz nz' d n = elim (Bool-cases (i == j)) [
    | inl e ↦ elim (Bool-cases (i == k)) [
      | inl e' ↦ omega (arith, (==_iff i j).0 e, (==_iff i k).0 e')
      | inr ne' ↦
          let at : i ≡ j = (==_iff i j).0 e in
          let key_d : (t' k).dev ≡ dev = sym d ∙ ap (λ j. (t' j).dev) (sym at) ∙ c.at_dev in
          let key_n : (t' k).inum ≡ inum = sym n ∙ ap (λ j. (t' j).inum) (sym at) ∙ c.at_inum in
          absurd (no_twin k lt' (λ z. absurd (ground (arith, z, ne'))) nz' key_d key_n)
    ]
    | inr ne ↦ elim (Bool-cases (i == k)) [
      | inl e' ↦
          let at : i ≡ k = (==_iff i k).0 e' in
          let key_d : (t' j).dev ≡ dev = d ∙ ap (λ j. (t' j).dev) (sym at) ∙ c.at_dev in
          let key_n : (t' j).inum ≡ inum = n ∙ ap (λ j. (t' j).inum) (sym at) ∙ c.at_inum in
          absurd (no_twin j lt (λ z. absurd (ground (arith, z, ne))) nz key_d key_n)
      | inr ne' ↦
          let same_j = c.others j (λ z. absurd (ground (arith, z, ne))) in
          let same_k = c.others k (λ z. absurd (ground (arith, z, ne'))) in
          u j k lt lt' (λ z. nz (ap (λ (x : Inode). x.ref) same_j ∙ z))
            (λ z. nz' (ap (λ (x : Inode). x.ref) same_k ∙ z))
            (sym (ap (λ (x : Inode). x.dev) same_j) ∙ d ∙ ap (λ (x : Inode). x.dev) same_k)
            (sym (ap (λ (x : Inode). x.inum) same_j) ∙ n ∙ ap (λ (x : Inode). x.inum) same_k)
    ]
  ]

  count_here : count t' dev inum ≡ r
  count_here = elim (Bool-cases (r == 0)) [
    | inl no_ref ↦
        let z : r ≡ 0 = (==_iff r 0).0 no_ref in
        count-none t' dev inum (λ j lt. elim (Bool-cases (i == j)) [
          | inl e ↦
              let at : i ≡ j = (==_iff i j).0 e in
              let z_j : (t' j).ref ≡ 0 = ap (λ j. (t' j).ref) (sym at) ∙ c.at_ref ∙ z in
              ground (arith, z_j)
          | inr ne ↦
              let ne' : i ≢ j = λ z. absurd (ground (arith, z, ne)) in
              same_match dev inum j ne' ∙ c.alone j lt ne'
        ])
        ∙ sym z
    | inr has_ref ↦
        let m : matches t' dev inum i ≡ true =
          ground (arith, c.at_ref, c.at_dev, c.at_inum, has_ref) in
        count-some t' dev inum i Changes-IsTable c.below m ∙ c.at_ref
  ]

  not_here :
      (dev' inum' : ℕ)
      → ((dev' == dev) && (inum' == inum)) ≡ false
      → (matches t dev' inum' i ≡ false) × (matches t' dev' inum' i ≡ false)
  not_here dev' inum' other = (
    elim c.before [ inl z ↦ ground (arith, z) | inr (d, n) ↦ ground (arith, d, n, other) ],
    ground (arith, c.at_dev, c.at_inum, other),
  )

  count_elsewhere :
      (dev' inum' : ℕ)
      → ((dev' == dev) && (inum' == inum)) ≡ false
      → count t' dev' inum' ≡ count t dev' inum'
  count_elsewhere dev' inum' other =
      elim (Option-cases (find_first (matches t dev' inum') ninode)) [
        | inr (j, e) ↦
            let f = find_first_sound (matches t dev' inum') ninode j e in
            let lt : j < ninode = omega (arith, f.below) in
            let ne : i ≢ j = λ z.
              let hit : matches t dev' inum' i ≡ true = ap (matches t dev' inum') z ∙ f.passes in
              absurd (ground (arith, hit, (not_here dev' inum' other).0)) in
            count-some t' dev' inum' j Changes-IsTable lt (same_match dev' inum' j ne ∙ f.passes)
            ∙ ap (λ (x : Inode). x.ref) (c.others j ne)
            ∙ sym (count-some t dev' inum' j u lt f.passes)
        | inl e ↦
            let none_at = find_first-none (matches t dev' inum') ninode e in
            count-none t' dev' inum' (λ j lt. elim (Bool-cases (i == j)) [
              | inl q ↦
                  let at : i ≡ j = (==_iff i j).0 q in
                  ap (matches t' dev' inum') (sym at) ∙ (not_here dev' inum' other).1
              | inr ne ↦
                  same_match dev' inum' j (λ z. absurd (ground (arith, z, ne))) ∙ none_at j lt
            ])
            ∙ sym (count-none t dev' inum' none_at)
      ]

  -- The counts of the table afterwards.
  pub Changes-count :
      (dev' inum' : ℕ)
      → count t' dev' inum' ≡ (if (dev' == dev) && (inum' == inum) then r else count t dev' inum')
  Changes-count dev' inum' = elim (Bool-cases ((dev' == dev) && (inum' == inum))) [
    | inl same ↦
        let d : dev' ≡ dev = ground (arith, same) in
        let n : inum' ≡ inum = ground (arith, same) in
        rw same (ap (λ d. count t' d inum') d ∙ ap (count t' dev) n ∙ count_here)
    | inr other ↦ rw other (count_elsewhere dev' inum' other)
  ]
