-- ===== src/Kernel/Inode.antt =====
-- kernel/fs.c: the content of an inode: `bmap`, `itrunc`, `stati`, `readi` and `writei`; its copy on
-- the disk: `iupdate`, `ilock` and `iunlock`.
--
-- An operation takes the inode in memory and the disk and gives the changed ones. What
-- `either_copyin` and `either_copyout` reach is an argument: of `n` bytes at `addr` the first
-- `reach addr n` are copied, and the call fails if these are not all. A `short` is its 16 bits.
pub mod Copies
pub mod Slots
pub mod Grow
pub mod Map
pub mod Write
pub mod WriteLoop
pub mod Update
pub mod Writei
pub mod Read
pub mod Readi
pub mod Fine
pub mod Layer
pub mod Free
pub mod Truncate
pub mod Truncated
mod Tests
use xv6_tp.Base.{
  ℕ, zero, suc, ◌+◌, ◌-◌, ◌*◌, ◌/◌, ◌%◌, ◌^◌, Bool, true, false, not, ◌&&◌, ◌||◌, Option, none,
  some, ◌==◌, ltb, leb, if◌then◌else◌, update, ℤ, pos, negsuc, min,
}
use xv6_tp.Base.Run.{Run, done, panics, out_of_fuel, ◌>>=◌}
use xv6_tp.Kernel.File.Transfer.{bsize}
use xv6_tp.Kernel.Block.{Superblock, Disk, word_at, write_block, balloc, bfree}
use xv6_tp.Kernel.Block.Words.{byte_of, put_word}

abbrev pub ndirect : ℕ
ndirect = 12

abbrev pub nindirect : ℕ
nindirect = bsize / 4

abbrev pub maxfile : ℕ
maxfile = ndirect + nindirect

pub record Inode : Type 0 where
  pub dev : ℕ
  pub inum : ℕ
  pub ref : ℕ
  pub locked : Bool
  pub valid : Bool
  pub type : ℕ
  pub major : ℕ
  pub minor : ℕ
  pub nlink : ℕ
  pub size : ℕ
  pub addrs : ℕ → ℕ
  pub mode : ℕ

-- The inodes in memory and the disk.
pub record World : Type 0 where
  pub inode : ℕ → Inode
  pub disk : Disk

-- A `struct dinode` is as large as a block, so there is one in each.
abbrev pub ipb : ℕ
ipb = bsize / 1024

abbrev pub iblock : ℕ → Superblock → ℕ
iblock i sb = i / ipb + sb.inodestart

abbrev pub half_at : (ℕ → ℕ) → ℕ → ℕ
half_at block j = block j + 256 * block (j + 1)

-- A byte of the inode on the disk: four shorts, the size, the addresses from byte 12 on, the mode.
abbrev pub dinode_of : Inode → (ℕ → ℕ) → ℕ → ℕ
dinode_of ip block j =
    if ltb j 2
    then byte_of ip.type j
    else if ltb j 4
    then byte_of ip.major (j - 2)
    else if ltb j 6
    then byte_of ip.minor (j - 4)
    else if ltb j 8
    then byte_of ip.nlink (j - 6)
    else if ltb j 12
    then byte_of ip.size (j - 8)
    else if ltb j 64
    then byte_of (ip.addrs ((j - 12) / 4)) ((j - 12) % 4)
    else if ltb j 66
    then byte_of ip.mode (j - 64)
    else block j

unfoldable pub iupdate : Superblock → Inode → Disk → Disk
iupdate sb ip d = let b = iblock ip.inum sb in write_block b (dinode_of ip (d.bytes b)) d

-- The fields of an inode from its copy on the disk.
abbrev pub read_dinode : (ℕ → ℕ) → Inode → Inode
read_dinode block ip = record ip {
  type = half_at block 0;
  major = half_at block 2;
  minor = half_at block 4;
  nlink = half_at block 6;
  size = word_at block 2;
  mode = half_at block 64;
  addrs = λ i. word_at block (3 + i);
  valid = true;
}

abbrev pub load : Superblock → Disk → Inode → Run Inode
load sb d ip =
    let ip' = read_dinode (d.bytes (iblock ip.inum sb)) ip in
    if ip.valid then done ip else if ip'.type == 0 then panics else done ip'

-- At the moment that `acquiresleep` returns.
unfoldable pub ilock : Superblock → Disk → Inode → Run Inode
ilock sb d ip = if ip.ref == 0 then panics else load sb d (record ip { locked = true })

unfoldable pub iunlock : Inode → Run Inode
iunlock ip = if not ip.locked || ip.ref == 0 then panics else done (record ip { locked = false })

abbrev pub new_direct : ℕ → Inode → ℕ × Disk → ℕ × Inode × Disk
new_direct bn ip (zero, d) = (0, ip, d)
new_direct bn ip (suc a, d) = (suc a, record ip { addrs = update ip.addrs bn (suc a) }, d)

-- The block in `addrs[bn]`, of which the last is the indirect block.
abbrev pub direct : Superblock → ℕ → Inode → Disk → ℕ × Inode × Disk
direct sb bn ip d =
    if ip.addrs bn == 0 then new_direct bn ip (balloc sb d) else (ip.addrs bn, ip, d)

abbrev pub new_leaf : (i ind : ℕ) → ℕ × Disk → ℕ × Disk
new_leaf i ind (zero, d) = (0, d)
new_leaf i ind (suc a, d) = (suc a, write_block ind (put_word (d.bytes ind) i (suc a)) d)

-- The block in word `i` of the indirect block.
abbrev pub leaf : Superblock → (i ind : ℕ) → Disk → ℕ × Disk
leaf sb i ind d =
    if word_at (d.bytes ind) i == 0
    then new_leaf i ind (balloc sb d)
    else (word_at (d.bytes ind) i, d)

abbrev pub indirect : Superblock → ℕ → ℕ × Inode × Disk → ℕ × Inode × Disk
indirect sb i (zero, ip, d) = (0, ip, d)
indirect sb i (suc ind, ip, d) = let (a, d') = leaf sb i (suc ind) d in (a, ip, d')

unfoldable pub bmap : Superblock → ℕ → Inode → Disk → Run (ℕ × Inode × Disk)
bmap sb bn ip d =
    if ltb bn ndirect
    then done (direct sb bn ip d)
    else if ltb (bn - ndirect) nindirect
    then done (indirect sb (bn - ndirect) (direct sb ndirect ip d))
    else panics

-- `if(addrs[i]) { bfree(addrs[i]); addrs[i] = 0; }`
abbrev pub drop_addr : Superblock → ℕ → Inode → Disk → Run (Inode × Disk)
drop_addr sb i ip d =
    if ip.addrs i == 0
    then done (ip, d)
    else bfree sb (ip.addrs i) d >>= (λ d'. done (record ip { addrs = update ip.addrs i 0 }, d'))

-- `n` rounds of the loop over the direct blocks.
unfoldable pub trunc_direct : Superblock → (n i : ℕ) → Inode → Disk → Run (Inode × Disk)
trunc_direct sb zero i ip d = done (ip, d)
trunc_direct sb (suc n) i ip d = drop_addr sb i ip d >>= (λ s. trunc_direct sb n (i + 1) s.0 s.1)

-- `n` rounds of the loop over the words of the indirect block.
unfoldable pub trunc_leaves : Superblock → (ind n j : ℕ) → Disk → Run Disk
trunc_leaves sb ind zero j d = done d
trunc_leaves sb ind (suc n) j d =
    let a = word_at (d.bytes ind) j in
    (if a == 0 then done d else bfree sb a d) >>= (λ d'. trunc_leaves sb ind n (j + 1) d')

abbrev pub trunc_indirect : Superblock → Inode × Disk → Run (Inode × Disk)
trunc_indirect sb (ip, d) =
    if ip.addrs ndirect == 0
    then done (ip, d)
    else trunc_leaves sb (ip.addrs ndirect) nindirect 0 d >>= drop_addr sb ndirect ip

abbrev pub trunc_size : Superblock → Inode × Disk → Inode × Disk
trunc_size sb (ip, d) = (record ip { size = 0 }, iupdate sb (record ip { size = 0 }) d)

unfoldable pub itrunc : Superblock → Inode → Disk → Run (Inode × Disk)
itrunc sb ip d =
    trunc_direct sb ndirect 0 ip d >>= trunc_indirect sb >>= (λ s. done (trunc_size sb s))

pub record Stat : Type 0 where
  pub dev : ℕ
  pub ino : ℕ
  pub type : ℕ
  pub nlink : ℕ
  pub size : ℕ
  pub mode : ℕ

abbrev pub stati : Inode → Stat
stati ip = record {
  dev = ip.dev;
  ino = ip.inum;
  type = ip.type;
  nlink = ip.nlink;
  size = ip.size;
  mode = ip.mode;
}

-- `to` with `n` bytes of `from`, from byte `a` on, put at `o`.
abbrev pub paste : (from : ℕ → ℕ) → (a o n : ℕ) → (to : ℕ → ℕ) → ℕ → ℕ
paste from a o n to j = if leb o j && ltb j (o + n) then from (a + (j - o)) else to j

-- `min(n - tot, BSIZE - off % BSIZE)`
abbrev pub part : (n tot off : ℕ) → ℕ
part n tot off = min (n - tot) (bsize - off % bsize)
