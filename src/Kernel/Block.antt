-- ===== src/Kernel/Block.antt =====
-- kernel/fs.c: the blocks of the disk, `balloc`, `bfree` and `bzero`; `readsb` and `fsinit`.
--
-- There is one disk device. `bytes b i` is byte `i` of block `b` as `bread` shows it, that is in the
-- buffer cache; a block that `log_write` was called for is in the list `logged`.
pub mod Words
pub mod Bits
pub mod Scan
pub mod Alloc
pub mod Sample
mod Tests
use Prim.Native.Nat.{bit_and, bit_or}
use xv6_tp.Base.{
  ℕ, zero, suc, ◌+◌, ◌-◌, ◌*◌, ◌/◌, ◌%◌, ◌^◌, Bool, Option, none, some, List, [], ◌∷◌, ◌==◌, min,
  if◌then◌else◌, update, find_first,
}
use xv6_tp.Base.Run.{Run, done, panics, ◌>>=◌}

pub record Superblock : Type 0 where
  pub magic : ℕ
  pub size : ℕ
  pub nblocks : ℕ
  pub ninodes : ℕ
  pub nlog : ℕ
  pub logstart : ℕ
  pub inodestart : ℕ
  pub bmapstart : ℕ

pub record Disk : Type 0 where
  pub bytes : ℕ → ℕ → ℕ
  pub logged : List ℕ

abbrev pub fsmagic : ℕ
fsmagic = 0x1020_3040

-- The bits of a block.
abbrev pub bpb : ℕ
bpb = 1024 * 8

-- The block of the bitmap that has the bit of block `b`.
abbrev pub bblock : ℕ → Superblock → ℕ
bblock b sb = b / bpb + sb.bmapstart

-- Little-endian words in a block.
abbrev pub word_at : (ℕ → ℕ) → ℕ → ℕ
word_at block i =
    block (4 * i) + 256 * (block (4 * i + 1) + 256 * (block (4 * i + 2) + 256 * block (4 * i + 3)))

abbrev pub readsb : Disk → Superblock
readsb d =
    let w = word_at (d.bytes 1) in
    record {
      magic = w 0;
      size = w 1;
      nblocks = w 2;
      ninodes = w 3;
      nlog = w 4;
      logstart = w 5;
      inodestart = w 6;
      bmapstart = w 7;
    }

-- The superblock that the file system goes on with.
unfoldable pub fsinit : Disk → Run Superblock
fsinit d = if (readsb d).magic == fsmagic then done (readsb d) else panics

-- A block that was changed in the cache, and given to `log_write`. Here `log_write` has room for it
-- and is called in a transaction; `Kernel/Log` has its panics.
abbrev pub write_block : ℕ → (ℕ → ℕ) → Disk → Disk
write_block b block d = record { bytes = update d.bytes b block; logged = b ∷ d.logged }

abbrev pub bzero : ℕ → Disk → Disk
bzero b d = write_block b (λ i. 0) d

abbrev pub is_free : (ℕ → ℕ) → ℕ → Bool
is_free block bi = bit_and (block (bi / 8)) (2 ^ (bi % 8)) == 0

abbrev pub mark_used : (ℕ → ℕ) → ℕ → ℕ → ℕ
mark_used block bi = update block (bi / 8) (bit_or (block (bi / 8)) (2 ^ (bi % 8)))

-- `&= ~m` on a byte
abbrev pub mark_free : (ℕ → ℕ) → ℕ → ℕ → ℕ
mark_free block bi = update block (bi / 8) (bit_and (block (bi / 8)) (2 ^ 8 - 1 - 2 ^ (bi % 8)))

-- The inner loop of `balloc`: the first free bit of the bitmap's block for the blocks from `b` on.
abbrev pub free_in : Superblock → Disk → ℕ → Option ℕ
free_in sb d b = find_first (is_free (d.bytes (bblock b sb))) (min bpb (sb.size - b))

-- The outer loop, with `n` rounds to go.
unfoldable pub find_block : Superblock → Disk → ℕ → ℕ → Option ℕ
find_block sb d zero b = none
find_block sb d (suc n) b =
    let rest = find_block sb d n (b + bpb) in
    elim (free_in sb d b) [ none ↦ rest | some bi ↦ some (b + bi) ]

abbrev pub mark : ℕ → (ℕ → ℕ) → Superblock → Disk → Disk
mark b block sb d = write_block (bblock b sb) block d

unfoldable pub balloc : Superblock → Disk → ℕ × Disk
unfolding find_block
balloc sb d = elim (find_block sb d ((sb.size + bpb - 1) / bpb) 0) [
  | none ↦ (0, d)
  | some b ↦ (b, bzero b (mark b (mark_used (d.bytes (bblock b sb)) (b % bpb)) sb d))
]

unfoldable pub bfree : Superblock → ℕ → Disk → Run Disk
bfree sb b d =
    let block = d.bytes (bblock b sb) in
    if is_free block (b % bpb) then panics else done (mark b (mark_free block (b % bpb)) sb d)
