-- ===== src/Kernel/Inode/Update.antt =====
-- `iupdate` and `ilock`: the copy of an inode on the disk.
use xv6_tp.Base.{
  ℕ, ◌+◌, ◌-◌, ◌*◌, ◌/◌, ◌%◌, ◌^◌, ◌<◌, ◌≡◌, ◌≢◌, Bool, true, false, ◌||◌, ◌==◌, ltb, leb,
  if◌then◌else◌, arith, refl, Bool-cases, inl, inr, sym, ◌∙◌, ap, update, update_self, update_ne,
}
use xv6_tp.Base.Run.{done}
use xv6_tp.Kernel.File.Transfer.{bsize}
use xv6_tp.Kernel.Block.{Superblock, Disk, word_at}
use xv6_tp.Kernel.Block.Words.{byte_of}
use xv6_tp.Kernel.Block.Bits.{Bytes}
use xv6_tp.Kernel.Block.Scan.{unused}
use xv6_tp.Kernel.Block.Alloc.{IsVolume, unused-write, IsVolume-write}
use xv6_tp.Kernel.Inode.{Inode, maxfile, iblock, dinode_of, iupdate, read_dinode, ilock}
use xv6_tp.Kernel.Inode.Slots.{slot, file_byte, byte_in, IsSound}
use xv6_tp.Kernel.Inode.Grow.{slot_reads}

-- Soundness is about the addresses and the bitmap only.
pub IsSound-as :
    (sb : Superblock) (f g : ℕ → Inode) (d d' : Disk)
    → IsSound sb f d
    → IsVolume sb d'
    → ((x : ℕ) → x < sb.size → unused sb d' x ≡ unused sb d x)
    → ((i k : ℕ) → slot (g i) d' k ≡ slot (f i) d k)
    → IsSound sb g d'
IsSound-as sb f g d d' s v free same = record {
  volume = v;
  laid_out = s.laid_out;
  owns = λ i k nz.
      let o = s.owns i k (λ z. nz (same i k ∙ z)) in
      rw (same i k) (record {
        above = o.above;
        below = o.below;
        used = free (slot (f i) d k) o.below ∙ o.used;
      });
  apart = λ i j k l nz e. s.apart i j k l (λ z. nz (same i k ∙ z)) (sym (same i k) ∙ e ∙ same j l);
}

byte_of-byte : (v r : ℕ) → byte_of v r < 256
byte_of-byte v r = ground arith

either_byte : (c : Bool) (x y : ℕ) → x < 256 → y < 256 → (if c then x else y) < 256
either_byte true x y h k = h
either_byte false x y h k = k

dinode_of-Bytes : (ip : Inode) (block : ℕ → ℕ) → Bytes block → Bytes (dinode_of ip block)
dinode_of-Bytes ip block h j =
    let field = λ (v r : ℕ). byte_of-byte v r in
    either_byte (ltb j 2) _ _ (field ip.type j) (
      either_byte (ltb j 4) _ _ (field ip.major (j - 2)) (
        either_byte (ltb j 6) _ _ (field ip.minor (j - 4)) (
          either_byte (ltb j 8) _ _ (field ip.nlink (j - 6)) (
            either_byte (ltb j 12) _ _ (field ip.size (j - 8)) (
              either_byte (ltb j 64) _ _ (field (ip.addrs ((j - 12) / 4)) ((j - 12) % 4))
                (either_byte (ltb j 66) _ _ (field ip.mode (j - 64)) (h j)))))))

-- `iupdate` of an inode of the disk keeps the inodes sound and every byte of the files.
module _ (sb : Superblock) (f : ℕ → Inode) (d : Disk) (s : IsSound sb f d) (ip : Inode)
    (lt : ip.inum < sb.ninodes) where
  abbrev b : ℕ
  b = iblock ip.inum sb

  low : b < sb.bmapstart
  low = omega (arith, s.laid_out.inodes)

  data_same :
      (i k : ℕ)
      → slot (f i) d k ≢ 0
      → (iupdate sb ip d).bytes (slot (f i) d k) ≡ d.bytes (slot (f i) d k)
  unfolding iupdate
  data_same i k nz =
      let o = s.owns i k nz in
      update_ne d.bytes b (slot (f i) d k) (dinode_of ip (d.bytes b))
        (λ e. omega (arith, low, o.above, e))

  pub slot_same : (i k : ℕ) → slot (f i) (iupdate sb ip d) k ≡ slot (f i) d k
  slot_same i k = slot_reads (f i) d (iupdate sb ip d) k (λ nz. data_same i maxfile nz)

  pub iupdate-unused : (x : ℕ) → x < sb.size → unused sb (iupdate sb ip d) x ≡ unused sb d x
  unfolding iupdate
  iupdate-unused = unused-write sb b (dinode_of ip (d.bytes b)) d (inl low)

  pub iupdate-IsSound : IsSound sb f (iupdate sb ip d)
  unfolding iupdate
  iupdate-IsSound =
      let block = dinode_of ip (d.bytes b) in
      IsSound-as sb f f d (iupdate sb ip d) s
        (IsVolume-write sb b block d (inl low) s.volume
          (dinode_of-Bytes ip (d.bytes b) (s.volume.bytes b)))
        iupdate-unused slot_same

  pub iupdate-file_byte : (i o : ℕ) → file_byte (f i) (iupdate sb ip d) o ≡ file_byte (f i) d o
  iupdate-file_byte i o =
      ap (λ a. byte_in a o (iupdate sb ip d)) (slot_same i (o / bsize))
      ∙ elim (Bool-cases (slot (f i) d (o / bsize) == 0 || leb maxfile (o / bsize))) [
        | inl none ↦ rw none refl
        | inr there ↦
            let nz : slot (f i) d (o / bsize) ≢ 0 = λ z. absurd (ground (arith, z, there)) in
            rw there (ap (λ (g : ℕ → ℕ). g (o % bsize)) (data_same i (o / bsize) nz))
      ]

-- The fields that the disk keeps fit their types.
pub record IsPacked (ip : Inode) : Type 0 where
  pub type : ip.type < 2 ^ 16
  pub major : ip.major < 2 ^ 16
  pub minor : ip.minor < 2 ^ 16
  pub nlink : ip.nlink < 2 ^ 16
  pub size : ip.size < 2 ^ 32
  pub addrs : (i : ℕ) → ip.addrs i < 2 ^ 32
  pub mode : ip.mode < 2 ^ 16

-- `ip'` has what `ip` keeps on the disk.
pub record Restored (ip ip' : Inode) : Type 0 where
  pub type : ip'.type ≡ ip.type
  pub major : ip'.major ≡ ip.major
  pub minor : ip'.minor ≡ ip.minor
  pub nlink : ip'.nlink ≡ ip.nlink
  pub size : ip'.size ≡ ip.size
  pub addrs : (i : ℕ) → i < 13 → ip'.addrs i ≡ ip.addrs i
  pub mode : ip'.mode ≡ ip.mode
  pub valid : ip'.valid ≡ true

addr_byte :
    (ip : Inode) (block : ℕ → ℕ) (i r a : ℕ)
    → a ≡ 4 * (3 + i) + r
    → r < 4
    → i < 13
    → dinode_of ip block a ≡ byte_of (ip.addrs i) r
addr_byte ip block i r a e lt h =
    let t2 : ltb a 2 ≡ false = ground arith in
    let t4 : ltb a 4 ≡ false = ground arith in
    let t6 : ltb a 6 ≡ false = ground arith in
    let t8 : ltb a 8 ≡ false = ground arith in
    let t12 : ltb a 12 ≡ false = ground arith in
    let t64 : ltb a 64 ≡ true = ground arith in
    let at : (a - 12) / 4 ≡ i = omega arith in
    let low : (a - 12) % 4 ≡ r = omega arith in rw (t2, t4, t6, t8, t12, t64, at, low) refl

addr_word :
    (ip : Inode) (block : ℕ → ℕ) (i : ℕ)
    → i < 13
    → ip.addrs i < 2 ^ 32
    → word_at (dinode_of ip block) (3 + i) ≡ ip.addrs i
addr_word ip block i h lt =
    let b0 = addr_byte ip block i 0 (4 * (3 + i)) (omega arith) (omega arith) h in
    let b1 = addr_byte ip block i 1 (4 * (3 + i) + 1) refl (omega arith) h in
    let b2 = addr_byte ip block i 2 (4 * (3 + i) + 2) refl (omega arith) h in
    let b3 = addr_byte ip block i 3 (4 * (3 + i) + 3) refl (omega arith) h in
    rw (b0, b1, b2, b3) (omega arith)

read_dinode-Restored :
    (ip ip0 : Inode) (block : ℕ → ℕ)
    → IsPacked ip
    → Restored ip (read_dinode (dinode_of ip block) ip0)
read_dinode-Restored ip ip0 block p = record {
  type = omega (arith, p.type);
  major = omega (arith, p.major);
  minor = omega (arith, p.minor);
  nlink = omega (arith, p.nlink);
  size = omega (arith, p.size);
  addrs = λ i lt. addr_word ip block i lt (p.addrs i);
  mode = omega (arith, p.mode);
  valid = refl;
}

-- An inode that `iupdate` wrote comes back with `ilock`: a slot of the table that has not read it
-- yet gets the same fields, and does not panic if the inode has a type.
pub ilock-iupdate :
    (sb : Superblock) (d : Disk) (ip ip0 : Inode)
    → IsPacked ip
    → ip.type ≢ 0
    → ip0.inum ≡ ip.inum
    → ip0.ref ≢ 0
    → ip0.valid ≡ false
    → (ip' : Inode) × (ilock sb (iupdate sb ip d) ip0 ≡ done ip') × Restored ip ip'
unfolding ilock iupdate
ilock-iupdate sb d ip ip0 p typed same held stale =
    let b = iblock ip.inum sb in
    let block = dinode_of ip (d.bytes b) in
    let ip1 : Inode = record ip0 { locked = true } in
    let r = read_dinode-Restored ip ip1 (d.bytes b) p in
    let at : update d.bytes b block (iblock ip0.inum sb) ≡ block =
      ap (λ n. update d.bytes b block (iblock n sb)) same ∙ update_self d.bytes b block in
    let has_ref : (ip0.ref == 0) ≡ false = ground arith in
    let has_type : ((read_dinode block ip1).type == 0) ≡ false = ground (arith, r.type, typed) in
    (read_dinode block ip1, rw (has_ref, stale, at, has_type) refl, r)
