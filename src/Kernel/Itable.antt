-- ===== src/Kernel/Itable.antt =====
-- kernel/fs.c: the table of inodes in memory: `iget`, `idup`, `iput`, `iunlockput` and `ialloc`.
--
-- A pointer to an inode is the number of its slot.
pub mod Count
pub mod Get
pub mod Put
mod Tests
use xv6_tp.Base.{
  ℕ, zero, suc, ◌+◌, ◌-◌, ◌/◌, ◌%◌, Bool, true, false, not, ◌&&◌, ◌||◌, Option, none, some, ◌==◌,
  ltb, if◌then◌else◌, update, find_first,
}
use xv6_tp.Base.Run.{Run, done, panics, ◌>>=◌}
use xv6_tp.Kernel.Block.{Superblock, Disk, write_block}
use xv6_tp.Kernel.Inode.{World, Inode, iblock, half_at, iupdate, itrunc, iunlock}

abbrev pub ninode : ℕ
ninode = 50

-- `ip->ref > 0 && ip->dev == dev && ip->inum == inum`
abbrev pub matches : (ℕ → Inode) → (dev inum : ℕ) → ℕ → Bool
matches t dev inum i = ltb 0 (t i).ref && (t i).dev == dev && (t i).inum == inum

abbrev pub is_spare : (ℕ → Inode) → ℕ → Bool
is_spare t i = (t i).ref == 0

abbrev pub set_inode : ℕ → Inode → World → World
set_inode i ip w = record w { inode = update w.inode i ip }

unfoldable pub idup : ℕ → World → World
idup i w = set_inode i (record (w.inode i) { ref = (w.inode i).ref + 1 }) w

abbrev pub new_inode : (dev inum : ℕ) → Inode → Inode
new_inode dev inum ip = record ip { dev = dev; inum = inum; ref = 1; valid = false }

-- The first free slot, if the inode is not in the table.
abbrev pub get_spare : (dev inum : ℕ) → World → Option ℕ → Run (ℕ × World)
get_spare dev inum w none = panics
get_spare dev inum w (some i) = done (i, set_inode i (new_inode dev inum (w.inode i)) w)

abbrev pub get_slot : (dev inum : ℕ) → World → Option ℕ → Run (ℕ × World)
get_slot dev inum w none = get_spare dev inum w (find_first (is_spare w.inode) ninode)
get_slot dev inum w (some i) = done (i, idup i w)

unfoldable pub iget : (dev inum : ℕ) → World → Run (ℕ × World)
unfolding idup
iget dev inum w = get_slot dev inum w (find_first (matches w.inode dev inum) ninode)

-- The end of `iput`.
abbrev pub drop_ref : ℕ → World → World
drop_ref i w = set_inode i (record (w.inode i) { ref = (w.inode i).ref - 1 }) w

-- The inode without links is gone: on the disk its type is 0.
abbrev pub free_inode : Superblock → ℕ → World → Inode × Disk → World
free_inode sb i w (ip, d) = record {
  inode = update w.inode i (record ip { type = 0; valid = false });
  disk = iupdate sb (record ip { type = 0 }) d;
}

unfoldable pub iput : Superblock → ℕ → World → Run World
iput sb i w =
    let ip = w.inode i in
    if ip.ref == 1 && ip.valid && ip.nlink == 0
    then itrunc sb ip w.disk >>= (λ s. done (drop_ref i (free_inode sb i w s)))
    else done (drop_ref i w)

pub iunlockput : Superblock → ℕ → World → Run World
iunlockput sb i w = iunlock (w.inode i) >>= (λ ip. iput sb i (set_inode i ip w))

-- A free inode: its type is 0 on the disk.
abbrev pub is_unallocated : Superblock → Disk → ℕ → Bool
is_unallocated sb d inum = half_at (d.bytes (iblock inum sb)) 0 == 0

-- The block of a new inode: zeros, the type, and the mode 6.
abbrev pub fresh_dinode : (type : ℕ) → ℕ → ℕ
fresh_dinode type j =
    if j == 0 then type % 256 else if j == 1 then type / 256 % 256 else if j == 64 then 6 else 0

abbrev pub alloc_at : Superblock → (dev type : ℕ) → World → Option ℕ → Run (Option ℕ × World)
alloc_at sb dev type w none = done (none, w)
alloc_at sb dev type w (some k) =
    iget dev (k + 1)
      (record w { disk = write_block (iblock (k + 1) sb) (fresh_dinode type) w.disk })
    >>= (λ r. done (some r.0, r.1))

-- The inodes from 1 on.
unfoldable pub ialloc : Superblock → (dev type : ℕ) → World → Run (Option ℕ × World)
ialloc sb dev type w =
    alloc_at sb dev type w (find_first (λ k. is_unallocated sb w.disk (k + 1)) (sb.ninodes - 1))
