-- ===== src/Kernel/Block/Scan.antt =====
-- The two loops of `balloc` find the first free block.
use xv6_tp.Base.{
  ℕ, zero, suc, ◌+◌, ◌-◌, ◌*◌, ◌/◌, ◌%◌, ◌≤◌, ◌<◌, ◌≡◌, Bool, false, Option, none, some, ltb, min,
  arith, refl, Bool-cases, Option-cases, inl, inr, IsFirst, find_first_sound, find_first-none, sym,
  ◌∙◌, ap,
}
use mathlib.Core.Path.{subst}
use xv6_tp.Kernel.Block.{Superblock, Disk, bpb, bblock, is_free, free_in, find_block}

-- The bitmap as a set: block `b` is free.
abbrev pub unused : Superblock → Disk → ℕ → Bool
unused sb d b = is_free (d.bytes (bblock b sb)) (b % bpb)

-- From block `b` on, which starts a block of the bitmap, the answer is the first free block.
abbrev pub Finds : Superblock → Disk → ℕ → Option ℕ → Type 0
Finds sb d b none = (x : ℕ) → b ≤ x → x < sb.size → unused sb d x ≡ false
Finds sb d b (some r) = IsFirst (unused sb d) b (sb.size - b) r

module _ (sb : Superblock) (d : Disk) where
  at_bit :
      (b bi : ℕ)
      → b % bpb ≡ 0
      → bi < bpb
      → unused sb d (b + bi) ≡ is_free (d.bytes (bblock b sb)) bi
  at_bit b bi al h =
      let blk : (b + bi) / bpb ≡ b / bpb = omega arith in
      let bit : (b + bi) % bpb ≡ bi = omega arith in rw (blk, bit) refl

  at_block :
      (b x : ℕ)
      → b % bpb ≡ 0
      → b ≤ x
      → x - b < bpb
      → unused sb d x ≡ is_free (d.bytes (bblock b sb)) (x - b)
  at_block b x al le h =
      let e : b + (x - b) ≡ x = omega arith in ap (unused sb d) (sym e) ∙ at_bit b (x - b) al h

  find_block-Finds :
      (n b : ℕ) → b % bpb ≡ 0 → sb.size ≤ b + n * bpb → Finds sb d b (find_block sb d n b)
  unfolding find_block
  find_block-Finds zero b al fits = λ x le lt. absurd (omega arith)
  find_block-Finds (suc n) b al fits = elim (Option-cases (free_in sb d b)) [
    | inr (bi, e) ↦
        let f = find_first_sound (is_free (d.bytes (bblock b sb))) (min bpb (sb.size - b)) bi e in
        let lt : bi < min bpb (sb.size - b) = omega (arith, f.below) in
        let r : IsFirst (unused sb d) b (sb.size - b) (b + bi) = record {
          from = omega arith;
          below = omega arith;
          passes = at_bit b bi al (omega arith) ∙ f.passes;
          before = λ k lo hi.
              at_block b k al lo (omega arith) ∙ f.before (k - b) (omega arith) (omega arith);
        } in
        let run : find_block sb d (suc n) b ≡ some (b + bi) = rw (e, find_block) refl in
        subst (Finds sb d b) (sym run) r
    | inl e ↦
        let skip = find_first-none (is_free (d.bytes (bblock b sb))) (min bpb (sb.size - b)) e in
        let none_here : (k : ℕ) → b ≤ k → k < b + bpb → k < sb.size → unused sb d k ≡ false =
          λ k lo hi lt. at_block b k al lo (omega arith) ∙ skip (k - b) (omega arith) in
        let ih = find_block-Finds n (b + bpb) (omega arith) (omega arith) in
        let run : find_block sb d (suc n) b ≡ find_block sb d n (b + bpb) =
          rw (e, find_block) refl in
        subst (Finds sb d b) (sym run) (later b (find_block sb d n (b + bpb)) none_here ih)
  ]
    where
      later :
          (b : ℕ) (o : Option ℕ)
          → ((k : ℕ) → b ≤ k → k < b + bpb → k < sb.size → unused sb d k ≡ false)
          → Finds sb d (b + bpb) o
          → Finds sb d b o
      later b none here f = λ x le lt. elim (Bool-cases (ltb x (b + bpb))) [
        | inl near ↦ here x le (ground arith) lt
        | inr far ↦ f x (ground arith) lt
      ]
      later b (some r) here f = record {
        from = omega (arith, f.from);
        below = omega (arith, f.below, f.from);
        passes = f.passes;
        before = λ k lo hi. elim (Bool-cases (ltb k (b + bpb))) [
          | inl near ↦ here k lo (ground arith) (omega (arith, f.below, f.from))
          | inr far ↦ f.before k (ground arith) hi
        ];
      }

  -- All of the scan: nothing is free, or the answer is the first free block of the disk.
  pub scan-Finds : Finds sb d 0 (find_block sb d ((sb.size + bpb - 1) / bpb) 0)
  scan-Finds = find_block-Finds ((sb.size + bpb - 1) / bpb) 0 refl (omega arith)
