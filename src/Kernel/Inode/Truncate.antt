-- ===== src/Kernel/Inode/Truncate.antt =====
-- What `itrunc` comes to.
use mathlib.Core.Path.{subst}
use xv6_tp.Base.{
  ℕ, zero, suc, ◌+◌, ◌-◌, ◌≤◌, ◌<◌, ◌≡◌, ◌≢◌, true, ◌==◌, ltb, arith, refl, Bool-cases, inl, inr,
  ==_iff, sym, ◌∙◌, ap, update,
}
use xv6_tp.Base.Run.{done, ◌>>=◌}
use xv6_tp.Kernel.Block.{Superblock, Disk, word_at, bfree}
use xv6_tp.Kernel.Inode.{
  Inode, ndirect, nindirect, maxfile, drop_addr, trunc_direct, trunc_leaves, trunc_indirect,
}
use xv6_tp.Kernel.Inode.Slots.{slot, IsSound}
use xv6_tp.Kernel.Inode.Grow.{slot_word}
use xv6_tp.Kernel.Inode.Free.{at, Freed, Freed-none, Freed-more, Freed-skip, Freed-step}

module _ (sb : Superblock) (f : ℕ → Inode) (d : Disk) (s : IsSound sb f d) (i : ℕ) where
  -- The inode once its addresses below `n` are 0.
  pub record Dropped (n : ℕ) (ip : Inode) : Type 0 where
    pub fields : ip ≡ record (f i) { addrs = ip.addrs }
    pub gone : (k : ℕ) → k < n → ip.addrs k ≡ 0
    pub left : (k : ℕ) → n ≤ k → ip.addrs k ≡ (f i).addrs k

  Dropped-none : Dropped 0 (f i)
  Dropped-none = record { fields = refl; gone = λ k lt. absurd (omega arith); left = λ k le. refl }

  Dropped-skip : (n : ℕ) (ip : Inode) → Dropped n ip → ip.addrs n ≡ 0 → Dropped (n + 1) ip
  Dropped-skip n ip r z = record {
    fields = r.fields;
    gone = λ k lt. elim (Bool-cases (ltb k n)) [
      | inl before ↦ r.gone k (ground arith)
      | inr now ↦ let e : k ≡ n = ground arith in ap ip.addrs e ∙ z
    ];
    left = λ k le. r.left k (omega arith);
  }

  Dropped-step :
      (n : ℕ) (ip : Inode)
      → Dropped n ip
      → Dropped (n + 1) (record ip { addrs = update ip.addrs n 0 })
  Dropped-step n ip r = record {
    fields = ap (λ (x : Inode). record x { addrs = update ip.addrs n 0 }) r.fields;
    gone = λ k lt. ground (arith, r.gone k);
    left = λ k le. let rest = r.left k (omega arith) in ground (arith, rest);
  }

  -- One round of the loop over the direct blocks, or the end with the indirect block, which is at
  -- index `n` of the addresses and at position `k`.
  drop-Freed :
      (n k : ℕ) (ip : Inode) (d' : Disk)
      → at sb f d s i k ≡ (f i).addrs n
      → Dropped n ip
      → Freed sb f d s i k d'
      → (ip' : Inode) × (d'' : Disk) × (drop_addr sb n ip d' ≡ done (ip', d''))
        × Dropped (n + 1) ip'
        × Freed sb f d s i (k + 1) d''
  drop-Freed n k ip d' here r fr = elim (Bool-cases (ip.addrs n == 0)) [
    | inl none ↦
        let z : ip.addrs n ≡ 0 = (==_iff _ _).0 none in
        (
          ip,
          d',
          rw none refl,
          Dropped-skip n ip r z,
          Freed-skip sb f d s i k d' fr (here ∙ sym (r.left n (omega arith)) ∙ z),
        )
    | inr there ↦
        let e : ip.addrs n ≡ at sb f d s i k = r.left n (omega arith) ∙ sym here in
        let nz : at sb f d s i k ≢ 0 = λ z. absurd (ground (arith, there, e, z)) in
        let (d'', run, fr') = Freed-step sb f d s i k d' fr nz in
        let run' : bfree sb (ip.addrs n) d' ≡ done d'' = ap (λ a. bfree sb a d') e ∙ run in
        (
          record ip { addrs = update ip.addrs n 0 },
          d'',
          rw (there, run') refl,
          Dropped-step n ip r,
          fr',
        )
  ]

  direct-Freed :
      (m n : ℕ) (ip : Inode) (d' : Disk)
      → n + m ≡ ndirect
      → Dropped n ip
      → Freed sb f d s i n d'
      → (ip' : Inode) × (d'' : Disk) × (trunc_direct sb m n ip d' ≡ done (ip', d''))
        × Dropped ndirect ip'
        × Freed sb f d s i ndirect d''
  unfolding trunc_direct
  direct-Freed zero n ip d' e r fr =
      let at_end : n ≡ ndirect = omega arith in
      (
        ip,
        d',
        refl,
        subst (λ n. Dropped n ip) at_end r,
        subst (λ n. Freed sb f d s i n d') at_end fr,
      )
  direct-Freed (suc m) n ip d' e r fr =
      let lt : ltb n ndirect ≡ true = ground arith in
      let (ip1, d1, run, r1, fr1) = drop-Freed n n ip d' (rw lt refl) r fr in
      let (ip2, d2, run', r2, fr2) = direct-Freed m (n + 1) ip1 d1 (omega arith) r1 fr1 in
      (ip2, d2, rw run run', r2, fr2)

  leaves-Freed :
      (m j : ℕ) (d' : Disk)
      → j + m ≡ nindirect
      → (f i).addrs ndirect ≢ 0
      → Freed sb f d s i (ndirect + j) d'
      → (d'' : Disk) × (trunc_leaves sb ((f i).addrs ndirect) m j d' ≡ done d'')
        × Freed sb f d s i maxfile d''
  unfolding trunc_leaves
  leaves-Freed zero j d' e nz fr =
      let at_end : ndirect + j ≡ maxfile = omega arith in
      (d', refl, subst (λ n. Freed sb f d s i n d') at_end fr)
  leaves-Freed (suc m) j d' e nz fr =
      let ind : ℕ = (f i).addrs ndirect in
      let same : d'.bytes ind ≡ d.bytes ind = fr.blocks ind (s.owns i maxfile nz).above in
      let back : ndirect + j - ndirect ≡ j = omega arith in
      let word : word_at (d'.bytes ind) j ≡ at sb f d s i (ndirect + j) =
        ap (λ (g : ℕ → ℕ). word_at g j) same
        ∙ ap (word_at (d.bytes ind)) (sym back)
        ∙ sym (slot_word (f i) d (ndirect + j) (omega arith) (omega arith) nz) in
      let next : ndirect + j + 1 ≡ ndirect + (j + 1) = omega arith in
      elim (Bool-cases (word_at (d'.bytes ind) j == 0)) [
        | inl none ↦
            let z : at sb f d s i (ndirect + j) ≡ 0 = sym word ∙ (==_iff _ _).0 none in
            let fr1 =
              subst (λ n. Freed sb f d s i n d') next
                (Freed-skip sb f d s i (ndirect + j) d' fr z) in
            let (d2, run', fr2) = leaves-Freed m (j + 1) d' (omega arith) nz fr1 in
            (d2, rw none run', fr2)
        | inr there ↦
            let a_nz : at sb f d s i (ndirect + j) ≢ 0 =
              λ z. absurd (ground (arith, there, word, z)) in
            let (d1, run, fr1) = Freed-step sb f d s i (ndirect + j) d' fr a_nz in
            let run1 : bfree sb (word_at (d'.bytes ind) j) d' ≡ done d1 =
              ap (λ a. bfree sb a d') word ∙ run in
            let fr1' = subst (λ n. Freed sb f d s i n d1) next fr1 in
            let (d2, run', fr2) = leaves-Freed m (j + 1) d1 (omega arith) nz fr1' in
            (d2, rw (there, run1) run', fr2)
      ]

  indirect-Freed :
      (ip : Inode) (d' : Disk)
      → Dropped ndirect ip
      → Freed sb f d s i ndirect d'
      → (ip' : Inode) × (d'' : Disk) × (trunc_indirect sb (ip, d') ≡ done (ip', d''))
        × Dropped (ndirect + 1) ip'
        × Freed sb f d s i (maxfile + 1) d''
  indirect-Freed ip d' r fr =
      let same : ip.addrs ndirect ≡ (f i).addrs ndirect = r.left ndirect (omega arith) in
      elim (Bool-cases (ip.addrs ndirect == 0)) [
        | inl none ↦
            let z : ip.addrs ndirect ≡ 0 = (==_iff _ _).0 none in
            (
              ip,
              d',
              rw none refl,
              Dropped-skip ndirect ip r z,
              Freed-more sb f d s i ndirect (maxfile + 1) d' (omega arith) fr
                  (λ k lo hi. no_leaf (f i) k lo (sym same ∙ z)),
            )
        | inr there ↦
            let nz : (f i).addrs ndirect ≢ 0 = λ z. absurd (ground (arith, there, same, z)) in
            let (d1, run, fr1) = leaves-Freed nindirect 0 d' refl nz fr in
            let run1 = ap (λ a. trunc_leaves sb a nindirect 0 d') same ∙ run in
            let (ip2, d2, run2, r2, fr2) = drop-Freed ndirect maxfile ip d1 refl r fr1 in
            (ip2, d2, rw (there, run1) run2, r2, fr2)
      ]
    where
      no_leaf : (ip : Inode) (k : ℕ) → ndirect ≤ k → ip.addrs ndirect ≡ 0 → slot ip d k ≡ 0
      no_leaf ip k lo z = ground arith

  -- All but the size and the copy on the disk.
  pub all-Freed :
      (ip : Inode) × (d' : Disk) × ((trunc_direct sb ndirect 0 (f i) d >>= trunc_indirect sb)
        ≡ done (ip, d'))
      × Dropped (ndirect + 1) ip
      × Freed sb f d s i (maxfile + 1) d'
  all-Freed =
      let (ip1, d1, run1, r1, fr1) =
        direct-Freed ndirect 0 (f i) d refl Dropped-none (Freed-none sb f d s i) in
      let (ip2, d2, run2, r2, fr2) = indirect-Freed ip1 d1 r1 fr1 in
      (ip2, d2, rw run1 run2, r2, fr2)
