-- ===== src/Kernel/Inode/Slots.antt =====
-- The blocks that inodes own, and the bytes of their files.
use mathlib.Core.Path.{subst}
use xv6_tp.Base.{
  ℕ, ◌+◌, ◌-◌, ◌/◌, ◌%◌, ◌^◌, ◌≤◌, ◌<◌, ◌≡◌, ◌≢◌, true, false, ◌&&◌, ◌||◌, ◌==◌, ltb, leb,
  if◌then◌else◌, arith, refl, Bool-cases, inl, inr, ==_iff, sym, ◌∙◌, ap,
}
use xv6_tp.Kernel.File.Transfer.{bsize}
use xv6_tp.Kernel.Block.{Superblock, Disk, word_at}
use xv6_tp.Kernel.Block.Scan.{unused}
use xv6_tp.Kernel.Block.Alloc.{IsVolume, first_data}
use xv6_tp.Kernel.Inode.{Inode, ndirect, maxfile}

-- The address at a position of an inode: block `k` of the file, or at `maxfile` the indirect block.
abbrev pub slot : Inode → Disk → ℕ → ℕ
slot ip d k =
    if ltb k ndirect
    then ip.addrs k
    else if k == maxfile
    then ip.addrs ndirect
    else if ip.addrs ndirect == 0 || leb maxfile k
    then 0
    else word_at (d.bytes (ip.addrs ndirect)) (k - ndirect)

-- Byte `o` of a file whose block `o / bsize` is at address `a`; where there is no block it is 0.
abbrev pub byte_in : (a o : ℕ) → Disk → ℕ
byte_in a o d = if a == 0 || leb maxfile (o / bsize) then 0 else d.bytes a (o % bsize)

abbrev pub file_byte : Inode → Disk → ℕ → ℕ
file_byte ip d o = byte_in (slot ip d (o / bsize)) o d

pub beyond : (a o : ℕ) (d : Disk) → leb maxfile (o / bsize) ≡ true → byte_in a o d ≡ 0
beyond a o d h = ground (arith, h)

pub within :
    (a o : ℕ) (d : Disk)
    → leb maxfile (o / bsize) ≡ false
    → a ≢ 0
    → byte_in a o d ≡ d.bytes a (o % bsize)
within a o d h nz = ground (arith, h, nz)

-- The inodes of a table that its slots stand for: slots in use that were read from the disk. A slot
-- that is not, and may still have the addresses of its last inode, is taken as an empty file.
abbrev pub live : (ℕ → Inode) → ℕ → Inode
live t i = if (t i).valid && ltb 0 (t i).ref then t i else record (t i) { addrs = λ k. 0; size = 0 }

-- The layout of the disk: the inodes before the bitmap, the bitmap before the data.
pub record IsLaidOut (sb : Superblock) : Type 0 where
  pub inodes : sb.inodestart + sb.ninodes ≤ sb.bmapstart
  pub fits : sb.size ≤ 2 ^ 32

-- A data block in use.
pub record IsOwned (sb : Superblock) (d : Disk) (a : ℕ) : Type 0 where
  pub above : first_data sb ≤ a
  pub below : a < sb.size
  pub used : unused sb d a ≡ false

-- The addresses of all inodes are data blocks in use, each of them at one position of one inode.
pub record IsSound (sb : Superblock) (inode : ℕ → Inode) (d : Disk) : Type 0 where
  pub volume : IsVolume sb d
  pub laid_out : IsLaidOut sb
  pub owns : (i k : ℕ) → slot (inode i) d k ≢ 0 → IsOwned sb d (slot (inode i) d k)
  pub apart :
      (i j k l : ℕ)
      → slot (inode i) d k ≢ 0
      → slot (inode i) d k ≡ slot (inode j) d l
      → (i ≡ j) × (k ≡ l)

-- The inodes and the disk once block `b`, which was free, is at position `k0` of inode `i0`.
pub record Grows (sb : Superblock) (inode : ℕ → Inode) (d : Disk) (i0 k0 b : ℕ) (inode' : ℕ → Inode)
    (d' : Disk) : Type 0 where
  pub slots :
      (i k : ℕ) → slot (inode' i) d' k ≡ (if (i == i0) && (k == k0) then b else slot (inode i) d k)
  pub was_none : slot (inode i0) d k0 ≡ 0
  pub was_free : unused sb d b ≡ true
  pub above : first_data sb ≤ b
  pub below : b < sb.size
  pub marks : (x : ℕ) → x < sb.size → unused sb d' x ≡ (if x == b then false else unused sb d x)
  pub volume : IsVolume sb d'
  pub zeroed : (o : ℕ) → d'.bytes b o ≡ 0
  pub keeps :
      (i k : ℕ)
      → slot (inode i) d k ≢ 0
      → k < maxfile
      → d'.bytes (slot (inode i) d k) ≡ d.bytes (slot (inode i) d k)

module _ (sb : Superblock) (inode : ℕ → Inode) (d : Disk) (s : IsSound sb inode d) where
  pub not_free :
      (i k b : ℕ) → unused sb d b ≡ true → slot (inode i) d k ≢ 0 → slot (inode i) d k ≢ b
  not_free i k b free nz e =
      let used : unused sb d b ≡ false =
        subst (λ a. unused sb d a ≡ false) e (s.owns i k nz).used in
      ground (arith, free, used)

  module _ (i0 k0 b : ℕ) (inode' : ℕ → Inode) (d' : Disk)
      (g : Grows sb inode d i0 k0 b inode' d') where
    at_new : (i k : ℕ) → ((i == i0) && (k == k0)) ≡ true → slot (inode' i) d' k ≡ b
    at_new i k new = g.slots i k ∙ rw new refl

    at_old :
        (i k : ℕ) → ((i == i0) && (k == k0)) ≡ false → slot (inode' i) d' k ≡ slot (inode i) d k
    at_old i k old = g.slots i k ∙ rw old refl

    new_old :
        (i j k l : ℕ)
        → ((i == i0) && (k == k0)) ≡ true
        → ((j == i0) && (l == k0)) ≡ false
        → slot (inode' i) d' k ≢ slot (inode' j) d' l
    new_old i j k l new old e =
        let at : b ≡ slot (inode j) d l = sym (at_new i k new) ∙ e ∙ at_old j l old in
        let nz : slot (inode j) d l ≢ 0 = λ z. omega (arith, g.above, z, at) in
        not_free j l b g.was_free nz (sym at)

    still_apart :
        (i j k l : ℕ)
        → slot (inode' i) d' k ≢ 0
        → slot (inode' i) d' k ≡ slot (inode' j) d' l
        → (i ≡ j) × (k ≡ l)
    still_apart i j k l nz e = elim (Bool-cases ((i == i0) && (k == k0))) [
      | inl new ↦ elim (Bool-cases ((j == i0) && (l == k0))) [
        | inl new' ↦ (ground (arith, new, new'), ground (arith, new, new'))
        | inr old' ↦ absurd (new_old i j k l new old' e)
      ]
      | inr old ↦ elim (Bool-cases ((j == i0) && (l == k0))) [
        | inl new' ↦ absurd (new_old j i l k new' old (sym e))
        | inr old' ↦
            s.apart i j k l (λ z. nz (at_old i k old ∙ z))
              (sym (at_old i k old) ∙ e ∙ at_old j l old')
      ]
    ]

    still_owns : (i k : ℕ) → slot (inode' i) d' k ≢ 0 → IsOwned sb d' (slot (inode' i) d' k)
    still_owns i k nz = elim (Bool-cases ((i == i0) && (k == k0))) [
      | inl new ↦
          rw (at_new i k new)
            (record { above = g.above; below = g.below; used = ground (arith, g.marks b g.below) })
      | inr old ↦
          let a = slot (inode i) d k in
          let o = s.owns i k (λ z. nz (at_old i k old ∙ z)) in
          rw (at_old i k old) (record {
            above = o.above;
            below = o.below;
            used = ground (arith, g.marks a o.below, o.used);
          })
    ]

    pub Grows-slot : (i k : ℕ) → slot (inode i) d k ≢ 0 → slot (inode' i) d' k ≡ slot (inode i) d k
    Grows-slot i k nz = elim (Bool-cases ((i == i0) && (k == k0))) [
      | inl new ↦
          let i_at : i ≡ i0 = ground (arith, new) in
          let k_at : k ≡ k0 = ground (arith, new) in
          absurd (nz (ap (λ i. slot (inode i) d k) i_at ∙ ap (slot (inode i0) d) k_at ∙ g.was_none))
      | inr old ↦ at_old i k old
    ]

    pub Grows-IsSound : IsSound sb inode' d'
    Grows-IsSound = record {
      volume = g.volume;
      laid_out = s.laid_out;
      owns = still_owns;
      apart = still_apart;
    }

    pub Grows-file_byte : (i o : ℕ) → file_byte (inode' i) d' o ≡ file_byte (inode i) d o
    Grows-file_byte i o = elim (Bool-cases (leb maxfile (o / bsize))) [
      | inl out ↦
          beyond (slot (inode' i) d' (o / bsize)) o d' out
          ∙ sym (beyond (slot (inode i) d (o / bsize)) o d out)
      | inr inside ↦ elim (Bool-cases ((i == i0) && (o / bsize == k0))) [
        | inl new ↦
            let was : slot (inode i) d (o / bsize) ≡ 0 =
              here i0 k0 (ground (arith, new)) (ground (arith, new)) g.was_none in
            let now : byte_in b o d' ≡ 0 =
              within b o d' inside (λ z. omega (arith, g.above, z)) ∙ g.zeroed (o % bsize) in
            ap (λ a. byte_in a o d') (at_new i (o / bsize) new)
            ∙ now
            ∙ sym (ap (λ a. byte_in a o d) was)
        | inr old ↦ elim (Bool-cases (slot (inode i) d (o / bsize) == 0)) [
          | inl zero_now ↦
              let z : slot (inode i) d (o / bsize) ≡ 0 = (==_iff _ _).0 zero_now in
              ap (λ a. byte_in a o d') (at_old i (o / bsize) old ∙ z)
              ∙ sym (ap (λ a. byte_in a o d) z)
          | inr some_now ↦
              let nz : slot (inode i) d (o / bsize) ≢ 0 =
                λ z. absurd (ground (arith, z, some_now)) in
              let same = g.keeps i (o / bsize) nz (ground (arith, inside)) in
              ap (λ a. byte_in a o d') (at_old i (o / bsize) old)
              ∙ within (slot (inode i) d (o / bsize)) o d' inside nz
              ∙ ap (λ (f : ℕ → ℕ). f (o % bsize)) same
              ∙ sym (within (slot (inode i) d (o / bsize)) o d inside nz)
        ]
      ]
    ]
      where
        here :
            (i' k' : ℕ)
            → i ≡ i'
            → o / bsize ≡ k'
            → slot (inode i') d k' ≡ 0
            → slot (inode i) d (o / bsize) ≡ 0
        here i' k' e f z = ap (λ i. slot (inode i) d (o / bsize)) e ∙ ap (slot (inode i') d) f ∙ z
