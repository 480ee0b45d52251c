-- ===== src/Kernel/Inode/Truncated.antt =====
-- `itrunc` frees the blocks of a file and no others.
use xv6_tp.Base.{
  ℕ, ◌+◌, ◌/◌, ◌%◌, ◌≤◌, ◌<◌, ◌≡◌, ◌≢◌, true, false, ◌||◌, ◌==◌, ltb, leb, if◌then◌else◌, arith,
  refl, Bool-cases, inl, inr, sym, ◌∙◌, ap, update, update_ne,
}
use xv6_tp.Base.Run.{done, ◌>>=◌}
use xv6_tp.Kernel.File.Transfer.{bsize}
use xv6_tp.Kernel.Block.{Superblock, Disk}
use xv6_tp.Kernel.Block.Scan.{unused}
use xv6_tp.Kernel.Inode.{Inode, ndirect, maxfile, trunc_size, itrunc, iupdate}
use xv6_tp.Kernel.Inode.Slots.{slot, byte_in, file_byte, IsSound}
use xv6_tp.Kernel.Inode.Grow.{slot_reads}
use xv6_tp.Kernel.Inode.Free.{Freed}
use xv6_tp.Kernel.Inode.Truncate.{Dropped, all-Freed}
use xv6_tp.Kernel.Inode.Update.{iupdate-IsSound, iupdate-file_byte, iupdate-unused}

module _ (sb : Superblock) (f : ℕ → Inode) (d : Disk) (s : IsSound sb f d) (i : ℕ) where
  -- `itrunc` of inode `i` came to `ip` and `d'`.
  pub record Truncated (ip : Inode) (d' : Disk) : Type 0 where
    pub answer : itrunc sb (f i) d ≡ done (ip, d')
    pub fields : ip ≡ record (f i) { addrs = ip.addrs; size = 0 }
    pub empty : (k : ℕ) → slot ip d' k ≡ 0
    pub freed : (k : ℕ) → slot (f i) d k ≢ 0 → unused sb d' (slot (f i) d k) ≡ true
    pub kept :
        (x : ℕ)
        → x < sb.size
        → ((k : ℕ) → slot (f i) d k ≢ 0 → slot (f i) d k ≢ x)
        → unused sb d' x ≡ unused sb d x
    pub others : (j o : ℕ) → i ≢ j → file_byte (f j) d' o ≡ file_byte (f j) d o
    pub sound : IsSound sb (update f i ip) d'

  module _ (ip : Inode) (d' : Disk) (r : Dropped sb f d s i (ndirect + 1) ip)
      (fr : Freed sb f d s i (maxfile + 1) d') where
    abbrev empty_ip : Inode
    empty_ip = record ip { size = 0 }

    no_slot : (e : Disk) (k : ℕ) → slot empty_ip e k ≡ 0
    no_slot e k = empty ip e k (λ k lt. r.gone k (omega arith))
      where
        empty :
            (ip : Inode) (e : Disk) (k : ℕ)
            → ((k : ℕ) → k ≤ ndirect → ip.addrs k ≡ 0)
            → slot (record ip { size = 0 }) e k ≡ 0
        empty ip e k z =
            let last : ip.addrs ndirect ≡ 0 = z ndirect (omega arith) in
            elim (Bool-cases (ltb k ndirect)) [
              | inl low ↦ let here : ip.addrs k ≡ 0 = z k (ground arith) in ground arith
              | inr high ↦ ground arith
            ]

    in_reach : (k : ℕ) → slot (f i) d k ≢ 0 → k < maxfile + 1
    in_reach k nz = elim (Bool-cases (ltb k (maxfile + 1))) [
      | inl lt ↦ ground arith
      | inr far ↦ absurd (nz (beyond_all (f i) k far))
    ]
      where
        beyond_all : (ip : Inode) (k : ℕ) → ltb k (maxfile + 1) ≡ false → slot ip d k ≡ 0
        beyond_all ip k far = ground arith

    data_kept :
        (j k : ℕ) → slot (f j) d k ≢ 0 → d'.bytes (slot (f j) d k) ≡ d.bytes (slot (f j) d k)
    data_kept j k nz = fr.blocks (slot (f j) d k) (s.owns j k nz).above

    slot_kept : (j k : ℕ) → slot (f j) d' k ≡ slot (f j) d k
    slot_kept j k = slot_reads (f j) d d' k (λ nz. data_kept j maxfile nz)

    byte_kept : (j o : ℕ) → file_byte (f j) d' o ≡ file_byte (f j) d o
    byte_kept j o =
        ap (λ a. byte_in a o d') (slot_kept j (o / bsize))
        ∙ elim (Bool-cases (slot (f j) d (o / bsize) == 0 || leb maxfile (o / bsize))) [
          | inl none ↦ rw none refl
          | inr there ↦
              let nz : slot (f j) d (o / bsize) ≢ 0 = λ z. absurd (ground (arith, z, there)) in
              rw there (ap (λ (g : ℕ → ℕ). g (o % bsize)) (data_kept j (o / bsize) nz))
        ]

    slots_now :
        (j k : ℕ) → slot (update f i empty_ip j) d' k ≡ (if i == j then 0 else slot (f j) d k)
    slots_now j k = elim (Bool-cases (i == j)) [
      | inl e ↦ rw e (no_slot d' k)
      | inr e ↦ rw e (slot_kept j k)
    ]

    -- A position with a block is one of another inode, and was there before.
    other_slot :
        (j k : ℕ)
        → slot (update f i empty_ip j) d' k ≢ 0
        → (i ≢ j) × (slot (update f i empty_ip j) d' k ≡ slot (f j) d k)
    other_slot j k nz = elim (Bool-cases (i == j)) [
      | inl e ↦ absurd (nz (slots_now j k ∙ rw e refl))
      | inr e ↦ ((λ z. absurd (ground (arith, z, e))), slots_now j k ∙ rw e refl)
    ]

    freed-IsSound : IsSound sb (update f i empty_ip) d'
    freed-IsSound = record {
      volume = fr.volume;
      laid_out = s.laid_out;
      owns = λ j k nz.
          let (ne, e) = other_slot j k nz in
          let o = s.owns j k (λ z. nz (e ∙ z)) in
          let not_mine : (k' : ℕ)
              → k' < maxfile + 1
              → slot (f i) d k' ≢ 0
              → slot (f i) d k' ≢ slot (f j) d k =
            λ k' lt knz q. ne (s.apart i j k' k knz q).0 in
          rw e (record {
            above = o.above;
            below = o.below;
            used = fr.keeps (slot (f j) d k) o.below not_mine ∙ o.used;
          });
      apart = λ j j' k k' nz e.
          let (ne, here) = other_slot j k nz in
          let (ne', here') = other_slot j' k' (λ z. nz (e ∙ z)) in
          s.apart j j' k k' (λ z. nz (here ∙ z)) (sym here ∙ e ∙ here');
    }

    pub truncated :
        (known : (f i).inum < sb.ninodes)
        → itrunc sb (f i) d ≡ done (trunc_size sb (ip, d'))
        → Truncated empty_ip (iupdate sb empty_ip d')
    truncated known run =
        let g = update f i empty_ip in
        let inum : empty_ip.inum < sb.ninodes =
          omega (arith, known, ap (λ (x : Inode). x.inum) r.fields) in
        record {
          answer = run;
          fields = ap (λ (x : Inode). record x { size = 0 }) r.fields;
          empty = no_slot (iupdate sb empty_ip d');
          freed = λ k nz.
              let o = s.owns i k nz in
              iupdate-unused sb g d' freed-IsSound empty_ip inum (slot (f i) d k) o.below
              ∙ fr.frees k (in_reach k nz) nz;
          kept = λ x lt h.
              iupdate-unused sb g d' freed-IsSound empty_ip inum x lt
              ∙ fr.keeps x lt (λ k lt_k. h k);
          others = λ j o ne.
              let at_j : g j ≡ f j = update_ne f i j empty_ip ne in
              ap (λ x. file_byte x (iupdate sb empty_ip d') o) (sym at_j)
              ∙ iupdate-file_byte sb g d' freed-IsSound empty_ip inum j o
              ∙ ap (λ x. file_byte x d' o) at_j
              ∙ byte_kept j o;
          sound = iupdate-IsSound sb g d' freed-IsSound empty_ip inum;
        }

  -- `itrunc` ends and does not panic. It leaves an inode of size 0 without blocks; the blocks that the
  -- file had, the indirect block among them, are free, every other block is free or in use as before;
  -- no byte of another file changes, and the inodes stay sound.
  pub itrunc-Truncated : (f i).inum < sb.ninodes → (ip : Inode) × (d' : Disk) × Truncated ip d'
  unfolding itrunc
  itrunc-Truncated known =
      let (ip, d', run, r, fr) = all-Freed sb f d s i in
      (
        record ip { size = 0 },
        iupdate sb (record ip { size = 0 }) d',
        truncated ip d' r fr known (ap (λ x. x >>= (λ s. done (trunc_size sb s))) run),
      )
