-- ===== src/Kernel/Inode/Free.antt =====
-- The blocks of a file are freed one after the other, in the order of their positions.
use xv6_tp.Base.{
  ℕ, ◌+◌, ◌≤◌, ◌<◌, ◌≡◌, ◌≢◌, true, false, ◌==◌, ltb, arith, refl, Bool-cases, inl, inr, ◌∙◌, ap,
}
use xv6_tp.Base.Run.{done}
use xv6_tp.Kernel.Block.{Superblock, Disk, bfree}
use xv6_tp.Kernel.Block.Scan.{unused}
use xv6_tp.Kernel.Block.Alloc.{IsVolume, first_data, bfree-Freed}
use xv6_tp.Kernel.Inode.{Inode}
use xv6_tp.Kernel.Inode.Slots.{slot, IsSound}

module _ (sb : Superblock) (f : ℕ → Inode) (d : Disk) (s : IsSound sb f d) (i : ℕ) where
  abbrev pub at : ℕ → ℕ
  at k = slot (f i) d k

  -- The blocks at the positions below `n` are free, all others are as before.
  pub record Freed (n : ℕ) (d' : Disk) : Type 0 where
    pub volume : IsVolume sb d'
    pub frees : (k : ℕ) → k < n → at k ≢ 0 → unused sb d' (at k) ≡ true
    pub keeps :
        (x : ℕ)
        → x < sb.size
        → ((k : ℕ) → k < n → at k ≢ 0 → at k ≢ x)
        → unused sb d' x ≡ unused sb d x
    pub blocks : (x : ℕ) → first_data sb ≤ x → d'.bytes x ≡ d.bytes x

  pub Freed-none : Freed 0 d
  Freed-none = record {
    volume = s.volume;
    frees = λ k lt nz. absurd (omega arith);
    keeps = λ x lt h. refl;
    blocks = λ x lo. refl;
  }

  pub Freed-skip : (n : ℕ) (d' : Disk) → Freed n d' → at n ≡ 0 → Freed (n + 1) d'
  Freed-skip n d' r z = record {
    volume = r.volume;
    frees = λ k lt nz. elim (Bool-cases (ltb k n)) [
      | inl before ↦ r.frees k (ground arith) nz
      | inr now ↦ let e : k ≡ n = ground arith in absurd (nz (ap at e ∙ z))
    ];
    keeps = λ x lt h. r.keeps x lt (λ k lt_k. h k (omega arith));
    blocks = r.blocks;
  }

  -- Positions without a block need no step.
  pub Freed-more :
      (n m : ℕ) (d' : Disk) → n ≤ m → Freed n d' → ((k : ℕ) → n ≤ k → k < m → at k ≡ 0) → Freed m d'
  Freed-more n m d' le r none = record {
    volume = r.volume;
    frees = λ k lt nz. elim (Bool-cases (ltb k n)) [
      | inl before ↦ r.frees k (ground arith) nz
      | inr behind ↦ absurd (nz (none k (ground arith) lt))
    ];
    keeps = λ x lt h. r.keeps x lt (λ k lt_k. h k (omega arith));
    blocks = r.blocks;
  }

  pub Freed-step :
      (n : ℕ) (d' : Disk)
      → Freed n d'
      → at n ≢ 0
      → (d'' : Disk) × (bfree sb (at n) d' ≡ done d'') × Freed (n + 1) d''
  Freed-step n d' r nz =
      let a : ℕ = at n in
      let o = s.owns i n nz in
      let other : (k : ℕ) → k < n → at k ≢ 0 → at k ≢ a =
        λ k lt knz e. let (p, q) = s.apart i i k n knz e in omega arith in
      let used : unused sb d' a ≡ false = r.keeps a o.below other ∙ o.used in
      let (d'', run, fr) = bfree-Freed sb d' r.volume a o.above o.below used in
      (
        d'',
        run,
        record {
          volume = fr.volume;
          frees = λ k lt knz. elim (Bool-cases (ltb k n)) [
            | inl before ↦
                let lt_n : k < n = ground arith in
                let ne : (at k == a) ≡ false = ground (arith, other k lt_n knz) in
                fr.clears (at k) (s.owns i k knz).below ∙ rw ne (r.frees k lt_n knz)
            | inr now ↦
                let e : k ≡ n = ground arith in
                ap (λ k. unused sb d'' (at k)) e ∙ fr.clears a o.below ∙ ground arith
          ];
          keeps = λ x lt h.
              let ne : (x == a) ≡ false = ground (arith, h n (omega arith) nz) in
              fr.clears x lt ∙ rw ne (r.keeps x lt (λ k lt_k. h k (omega arith)));
          blocks = λ x lo.
              fr.others x (λ e. omega (arith, fr.volume.small, r.volume.small)) ∙ r.blocks x lo;
        },
      )
