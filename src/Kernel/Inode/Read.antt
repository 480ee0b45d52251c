-- ===== src/Kernel/Inode/Read.antt =====
-- A round of `readi`.
use xv6_tp.Base.{
  ℕ, zero, suc, ◌+◌, ◌-◌, ◌/◌, ◌%◌, ◌≤◌, ◌<◌, ◌≡◌, ◌≢◌, ◌⊎◌, true, false, ◌&&◌, ◌==◌, ltb, leb,
  arith, refl, Bool-cases, inl, inr, ==_iff, sym, ◌∙◌, ap, update, update_self,
}
use xv6_tp.Base.Run.{Run, done}
use xv6_tp.Kernel.File.Transfer.{bsize}
use xv6_tp.Kernel.Block.{Superblock, Disk}
use xv6_tp.Kernel.Block.Words.{==_self}
use xv6_tp.Kernel.Inode.{Inode, maxfile, paste}
use xv6_tp.Kernel.Inode.Copies.{Round, copies, no_block, read_part, read_round}
use xv6_tp.Kernel.Inode.Slots.{slot, byte_in, within, file_byte, IsSound}
use xv6_tp.Kernel.Inode.Map.{Carries, Mapped, bmap-Mapped}

-- Two pastes in a row.
pub paste-paste :
    (g g' mem mid : ℕ → ℕ) (off dst k m x : ℕ)
    → ((o : ℕ) → g' o ≡ g o)
    → mid x ≡ paste g off dst k mem x
    → paste g' (off + k) (dst + k) m mid x ≡ paste g off dst (k + m) mem x
paste-paste g g' mem mid off dst k m x same e = elim (Bool-cases (leb (dst + k) x)) [
  | inl hi ↦
      let at : off + k + (x - (dst + k)) ≡ off + (x - dst) = ground arith in
      ground (arith, e, at, same (off + (x - dst)))
  | inr lo ↦ ground (arith, e)
]

module _ (sb : Superblock) (reach : (addr n : ℕ) → ℕ) (inode : ℕ → Inode) (d : Disk)
    (s : IsSound sb inode d) (i : ℕ) where
  -- The memory, the inode and the disk once `m` bytes of the file at `off` are at `dst`.
  pub record HasRead (dst off m : ℕ) (mem mem' : ℕ → ℕ) (ip : Inode) (d' : Disk) : Type 0 where
    pub carries : Carries sb inode d (update inode i ip) d'
    pub fields : ip ≡ record (inode i) { addrs = ip.addrs }
    pub content : (x : ℕ) → mem' x ≡ paste (file_byte (inode i) d) off dst m mem x

  abbrev pub ReadRoundAs : (dst off m : ℕ) → (ℕ → ℕ) → Run (Round × (ℕ → ℕ) × Inode × Disk) → Type 0
  ReadRoundAs dst off m mem r =
      (mem' : ℕ → ℕ) × (ip : Inode) × (d' : Disk) × (((r ≡ done (copies m, mem', ip, d'))
          × HasRead dst off m mem mem' ip d')
        ⊎ ((r ≡ done (no_block, mem', ip, d'))
            × HasRead dst off 0 mem mem' ip d'
            × (slot (inode i) d (off / bsize) ≡ 0)))

  pub paste_none : (g mem : ℕ → ℕ) (off dst x : ℕ) → mem x ≡ paste g off dst 0 mem x
  paste_none g mem off dst x = ground arith

  module _ (dst off m : ℕ) (mem : ℕ → ℕ) (lt : off / bsize < maxfile)
      (fits : off % bsize + m ≤ bsize) (all : reach dst m ≡ m) where
    -- A byte of the block is a byte of the file.
    from_file :
        (a : ℕ) (ip : Inode) (d' : Disk) (y : ℕ)
        → Mapped sb inode d i (off / bsize) a ip d'
        → a ≢ 0
        → y < m
        → d'.bytes a (off % bsize + y) ≡ file_byte (inode i) d (off + y)
    from_file a ip d' y mp nz lt_m =
        let blk : (off + y) / bsize ≡ off / bsize = omega arith in
        let pos_in : (off + y) % bsize ≡ off % bsize + y = omega arith in
        let inside : leb maxfile ((off + y) / bsize) ≡ false = ground (arith, lt, blk) in
        let f = update inode i ip in
        let e : slot (f i) d' ((off + y) / bsize) ≡ a =
          ap (slot (f i) d') blk
          ∙ ap (λ (x : Inode). slot x d' (off / bsize)) (update_self inode i ip)
          ∙ sym mp.at_slot in
        ap (d'.bytes a) (sym pos_in)
        ∙ sym (within a (off + y) d' inside nz)
        ∙ sym (ap (λ a. byte_in a (off + y) d') e)
        ∙ mp.carries.same i (off + y)

    hole :
        (ip : Inode) (d' : Disk)
        → Mapped sb inode d i (off / bsize) 0 ip d'
        → slot (inode i) d (off / bsize) ≡ 0
    hole ip d' mp = elim (Bool-cases (slot (inode i) d (off / bsize) == 0)) [
      | inl e ↦ (==_iff _ _).0 e
      | inr there ↦
          let nz : slot (inode i) d (off / bsize) ≢ 0 = λ z. absurd (ground (arith, z, there)) in
          sym (mp.carries.keeps i (off / bsize) nz)
          ∙ ap (λ (x : Inode). slot x d' (off / bsize)) (update_self inode i ip)
          ∙ sym mp.at_slot
    ]

    got_part :
        (a : ℕ) (ip : Inode) (d' : Disk)
        → Mapped sb inode d i (off / bsize) a ip d'
        → ReadRoundAs dst off m mem (done (read_part reach dst off m mem (a, ip, d')))
    got_part zero ip d' mp = (
      mem,
      ip,
      d',
      inr (
        refl,
        record {
          carries = mp.carries;
          fields = mp.fields;
          content = paste_none (file_byte (inode i) d) mem off dst;
        },
        hole ip d' mp,
      ),
    )
    got_part (suc b) ip d' mp =
        let own : (reach dst m == m) ≡ true = rw all (==_self m) in
        (
          paste (d'.bytes (suc b)) (off % bsize) dst m mem,
          ip,
          d',
          inl (
            rw (own, all) refl,
            record {
              carries = mp.carries;
              fields = mp.fields;
              content = λ x. elim (Bool-cases (leb dst x && ltb x (dst + m))) [
                | inl e ↦
                    rw e
                      (from_file (suc b) ip d' (x - dst) mp (λ z. omega arith) (ground (arith, e)))
                | inr e ↦ rw e refl
              ];
            },
          ),
        )

    pub read_round-ReadRoundAs :
        ReadRoundAs dst off m mem (read_round reach sb dst off m mem (inode i) d)
    unfolding read_round
    read_round-ReadRoundAs =
        let (a, ip, d', run, mp) = bmap-Mapped sb inode d s i (off / bsize) lt in
        rw run (got_part a ip d' mp)
