-- ===== src/Kernel/Inode/Write.antt =====
-- What `writei` puts into a file.
use mathlib.Core.Path.{subst}
use xv6_tp.Base.{
  List, ◌∷◌, ℕ, zero, suc, ◌+◌, ◌-◌, ◌/◌, ◌%◌, ◌≤◌, ◌<◌, ◌≡◌, ◌≢◌, ◌⊎◌, Bool, true, false, ◌&&◌,
  ◌==◌, ltb, leb, if◌then◌else◌, arith, refl, Bool-cases, inl, inr, sym, ◌∙◌, ap, update,
  update_self, update_ne,
}
use xv6_tp.Base.Run.{Run, done}
use xv6_tp.Kernel.File.Transfer.{bsize}
use xv6_tp.Kernel.File.Written.{patched}
use xv6_tp.Kernel.Block.{Superblock, Disk}
use xv6_tp.Kernel.Block.Words.{==_self}
use xv6_tp.Kernel.Block.Bits.{Bytes}
use xv6_tp.Kernel.Block.Alloc.{unused-write, IsVolume-write}
use xv6_tp.Kernel.Inode.{Inode, ndirect, maxfile, paste}
use xv6_tp.Kernel.Inode.Copies.{Round, copies, no_block, write_part, write_round}
use xv6_tp.Kernel.Inode.Slots.{slot, file_byte, byte_in, beyond, within, IsSound, IsOwned}
use xv6_tp.Kernel.Inode.Grow.{slot_reads}
use xv6_tp.Kernel.Inode.Map.{Mapped, IsFull, bmap-Mapped}

-- Another content for block `bn` of the file of inode `i`, which is block `at` of the disk.
module _ (sb : Superblock) (inode : ℕ → Inode) (d : Disk) (s : IsSound sb inode d) (i bn at : ℕ)
    (block : ℕ → ℕ) (logged : List ℕ) (lt : bn < maxfile) (e_at : slot (inode i) d bn ≡ at)
    (nz : at ≢ 0) (bytes : Bytes block) where
  abbrev pub put : Disk
  put = record { bytes = update d.bytes at block; logged = logged }

  ne_at : (j k : ℕ) → slot (inode j) d k ≢ 0 → ((j ≡ i) → (k ≡ bn) → ⊥) → at ≢ slot (inode j) d k
  ne_at j k snz other e = let (p, q) = s.apart j i k bn snz (sym e ∙ sym e_at) in other p q

  pub same_slot : (j k : ℕ) → slot (inode j) put k ≡ slot (inode j) d k
  same_slot j k = slot_reads (inode j) d put k (λ inz.
      let keep : slot (inode j) d maxfile ≢ 0 = inz in
      update_ne d.bytes at ((inode j).addrs ndirect) block
        (ne_at j maxfile keep (λ p q. omega arith)))

  owned : IsOwned sb d at
  owned = subst (IsOwned sb d) e_at (s.owns i bn (λ z. nz (sym e_at ∙ z)))

  pub put-IsSound : IsSound sb inode put
  put-IsSound = record {
    volume =
        let v = IsVolume-write sb at block d (inr owned.above) s.volume bytes in
        record { bytes = v.bytes; reserved = v.reserved; small = v.small };
    laid_out = s.laid_out;
    owns = λ j k snz.
        let o = s.owns j k (λ z. snz (same_slot j k ∙ z)) in
        rw (same_slot j k) (record {
          above = o.above;
          below = o.below;
          used = unused-write sb at block d (inr owned.above) (slot (inode j) d k) o.below ∙ o.used;
        });
    apart = λ j j' k k' snz e.
        s.apart j j' k k' (λ z. snz (same_slot j k ∙ z))
          (sym (same_slot j k) ∙ e ∙ same_slot j' k');
  }

  pub put-file_byte :
      (j o : ℕ)
      → file_byte (inode j) put o
        ≡ (if (j == i) && (o / bsize == bn) then block (o % bsize) else file_byte (inode j) d o)
  put-file_byte j o =
      ap (λ a. byte_in a o put) (same_slot j (o / bsize))
      ∙ elim (Bool-cases (leb maxfile (o / bsize))) [
        | inl out ↦
            let other : (o / bsize == bn) ≡ false = ground arith in
            let x = slot (inode j) d (o / bsize) in
            beyond x o put out ∙ rw (other, and_false (j == i)) (sym (beyond x o d out))
        | inr inside ↦ elim (Bool-cases ((j == i) && (o / bsize == bn))) [
          | inl this ↦
              let j_at : j ≡ i = ground (arith, this) in
              let k_at : o / bsize ≡ bn = ground (arith, this) in
              let e : slot (inode j) d (o / bsize) ≡ at =
                ap (λ j. slot (inode j) d (o / bsize)) j_at ∙ ap (slot (inode i) d) k_at ∙ e_at in
              ap (λ a. byte_in a o put) e
              ∙ within at o put inside nz
              ∙ ap (λ (g : ℕ → ℕ). g (o % bsize)) (update_self d.bytes at block)
              ∙ rw this refl
          | inr other ↦ rw other (elsewhere j o inside other)
        ]
      ]
    where
      and_false : (b : Bool) → (b && false) ≡ false
      and_false true = refl
      and_false false = refl

      elsewhere :
          (j o : ℕ)
          → leb maxfile (o / bsize) ≡ false
          → ((j == i) && (o / bsize == bn)) ≡ false
          → byte_in (slot (inode j) d (o / bsize)) o put ≡ file_byte (inode j) d o
      elsewhere j o inside other = elim (Bool-cases (slot (inode j) d (o / bsize) == 0)) [
        | inl none ↦ rw none refl
        | inr there ↦
            let x = slot (inode j) d (o / bsize) in
            let snz : x ≢ 0 = λ z. absurd (ground (arith, z, there)) in
            let same =
              update_ne d.bytes at x block
                (ne_at j (o / bsize) snz (λ p q. absurd (ground (arith, other, p, q)))) in
            within x o put inside snz
            ∙ ap (λ (g : ℕ → ℕ). g (o % bsize)) same
            ∙ sym (within x o d inside snz)
      ]

-- One round: `m` bytes of memory go to the file at `off`, within one block.
module _ (sb : Superblock) (reach : (addr n : ℕ) → ℕ) (mem : ℕ → ℕ) (mem_bytes : Bytes mem)
    (inode : ℕ → Inode) (d : Disk) (s : IsSound sb inode d) (i : ℕ) where
  -- The inode and the disk once `m` bytes from `src` are in the file of inode `i` at `off`.
  pub record Wrote (src off m : ℕ) (ip : Inode) (d' : Disk) : Type 0 where
    pub sound : IsSound sb (update inode i ip) d'
    pub fields : ip ≡ record (inode i) { addrs = ip.addrs }
    pub keeps :
        (j k : ℕ) → slot (inode j) d k ≢ 0 → slot (update inode i ip j) d' k ≡ slot (inode j) d k
    pub there : (o : ℕ) → off ≤ o → o < off + m → slot (update inode i ip i) d' (o / bsize) ≢ 0
    pub content :
        (j o : ℕ)
        → file_byte (update inode i ip j) d' o
          ≡ patched mem i src off m (λ j o. file_byte (inode j) d o) j o

  -- A round writes all of its bytes, or none because the disk is full.
  abbrev pub RoundAs : (src off m : ℕ) → Run (Round × Inode × Disk) → Type 0
  RoundAs src off m r =
      (ip : Inode) × (d' : Disk) × (((r ≡ done (copies m, ip, d')) × Wrote src off m ip d')
        ⊎ ((r ≡ done (no_block, ip, d')) × Wrote src off 0 ip d' × IsFull sb d'))

  module _ (src off m : ℕ) (lt : off / bsize < maxfile) (fits : off % bsize + m ≤ bsize)
      (all : reach src m ≡ m) where
    paste-Bytes : (old : ℕ → ℕ) → Bytes old → Bytes (paste mem src (off % bsize) m old)
    paste-Bytes old h j = elim (Bool-cases (leb (off % bsize) j && ltb j (off % bsize + m))) [
      | inl e ↦ rw e (mem_bytes (src + (j - off % bsize)))
      | inr e ↦ rw e (h j)
    ]

    -- The bytes that a paste into a block changes, as bytes of the file.
    pasted :
        (j o now was : ℕ) (old : ℕ → ℕ)
        → now ≡ was
        → (((j == i) && (o / bsize == off / bsize)) ≡ true → old (o % bsize) ≡ now)
        → (if (j == i) && (o / bsize == off / bsize)
            then paste mem src (off % bsize) m old (o % bsize)
            else now)
          ≡ (if (j == i) && leb off o && ltb o (off + m) then mem (src + (o - off)) else was)
    pasted j o now was old e here = elim (Bool-cases ((j == i) && (o / bsize == off / bsize))) [
      | inl this ↦
          let from : src + (o % bsize - off % bsize) ≡ src + (o - off) = ground arith in
          let range : (leb (off % bsize) (o % bsize) && ltb (o % bsize) (off % bsize + m))
              ≡ ((j == i) && leb off o && ltb o (off + m)) =
            ground arith in
          rw (this, range, from, here this, e) refl
      | inr other ↦
          let range : ((j == i) && leb off o && ltb o (off + m)) ≡ false = ground arith in
          rw (other, range) e
    ]

    at_file :
        (f : ℕ → Inode) (d' : Disk) (j o : ℕ) {a : ℕ}
        → ((j == i) && (o / bsize == off / bsize)) ≡ true
        → slot (f i) d' (off / bsize) ≡ a
        → a ≢ 0
        → file_byte (f j) d' o ≡ d'.bytes a (o % bsize)
    at_file f d' j o {a = a} this e nz =
        let j_at : j ≡ i = ground (arith, this) in
        let k_at : o / bsize ≡ off / bsize = ground (arith, this) in
        ap (λ a. byte_in a o d')
          (ap (λ j. slot (f j) d' (o / bsize)) j_at ∙ ap (slot (f i) d') k_at ∙ e)
        ∙ within a o d' (ground (arith, k_at, lt)) nz

    wrote_part :
        (a : ℕ) (ip : Inode) (d' : Disk)
        → Mapped sb inode d i (off / bsize) a ip d'
        → RoundAs src off m (done (write_part reach mem src off m (a, ip, d')))
    wrote_part zero ip d' mp = (
      ip,
      d',
      inr (
        refl,
        record {
          sound = mp.carries.sound;
          fields = mp.fields;
          keeps = mp.carries.keeps;
          there = λ o lo hi. absurd (omega arith);
          content = λ j o. mp.carries.same j o ∙ sym (nothing j o (file_byte (inode j) d o));
        },
        mp.or_full refl,
      ),
    )
      where
        nothing :
            (j o was : ℕ)
            → (if (j == i) && leb off o && ltb o (off + 0) then mem (src + (o - off)) else was)
              ≡ was
        nothing j o was = ground arith
    wrote_part (suc b) ip d' mp =
        let f = update inode i ip in
        let block = paste mem src (off % bsize) m (d'.bytes (suc b)) in
        let sound = mp.carries.sound in
        let e_at : slot (f i) d' (off / bsize) ≡ suc b =
          ap (λ (x : Inode). slot x d' (off / bsize)) (update_self inode i ip) ∙ sym mp.at_slot in
        let nz : suc b ≢ 0 = λ z. omega arith in
        let hb : Bytes block = paste-Bytes (d'.bytes (suc b)) (sound.volume.bytes (suc b)) in
        let logged = suc b ∷ d'.logged in
        let own : (reach src m == m) ≡ true = rw all (==_self m) in
        (
          ip,
          put sb f d' sound i (off / bsize) (suc b) block logged lt e_at nz hb,
          inl (
            rw (own, all) refl,
            record {
              sound = put-IsSound sb f d' sound i (off / bsize) (suc b) block logged lt e_at nz hb;
              fields = mp.fields;
              keeps = λ j k snz.
                  same_slot sb f d' sound i (off / bsize) (suc b) block logged lt e_at nz hb j k
                  ∙ mp.carries.keeps j k snz;
              there = λ o lo hi z.
                  let blk : o / bsize ≡ off / bsize = omega arith in
                  nz (
                    sym (
                      same_slot sb f d' sound i (off / bsize) (suc b) block logged lt e_at nz hb i
                        (o / bsize)
                      ∙ ap (slot (f i) d') blk
                      ∙ e_at)
                    ∙ z);
              content = λ j o.
                  put-file_byte sb f d' sound i (off / bsize) (suc b) block logged lt e_at nz hb j o
                  ∙ pasted j o (file_byte (f j) d' o) (file_byte (inode j) d o) (d'.bytes (suc b))
                      (mp.carries.same j o) (λ this. sym (at_file f d' j o this e_at nz));
            },
          ),
        )

    pub write_round-RoundAs : RoundAs src off m (write_round reach sb mem src off m (inode i) d)
    unfolding write_round
    write_round-RoundAs =
        let (a, ip, d', run, mp) = bmap-Mapped sb inode d s i (off / bsize) lt in
        rw run (wrote_part a ip d' mp)
