-- ===== src/Kernel/Dir.antt =====
-- kernel/fs.c: directories, `namecmp`, `dirlookup` and `dirlink`; kernel/sysfile.c: `isdirempty`.
--
-- The kernel's memory is an argument: `name` is the address of a name, and `de` that of the local
-- `struct dirent` that entries are read into. The directory is the inode in a slot of the table.
pub mod Lookup
pub mod Answers
mod Tests
use xv6_tp.Base.{
  ℕ, zero, suc, ◌+◌, ◌-◌, ◌*◌, ◌/◌, ◌%◌, ◌^◌, Bool, true, false, not, ◌&&◌, ◌||◌, Option, none,
  some, ◌==◌, ltb, if◌then◌else◌, update, ℤ, pos, negsuc,
}
use xv6_tp.Base.Run.{Run, done, panics, out_of_fuel, ◌>>=◌}
use xv6_tp.Kernel.File.Transfer.{t_dir}
use xv6_tp.Kernel.Fs.{dirsiz}
use xv6_tp.Kernel.Str.{Memory, strncmp, strncpy}
use xv6_tp.Kernel.Block.{Superblock, Disk}
use xv6_tp.Kernel.Inode.{World, Inode, half_at}
use xv6_tp.Kernel.Inode.Copies.{readi, writei}
use xv6_tp.Kernel.Itable.{set_inode, iget, iput}

-- `sizeof(struct dirent)`
abbrev pub de_size : ℕ
de_size = 16

-- The kernel's own memory is always there.
abbrev pub kernel_reach : (addr n : ℕ) → ℕ
kernel_reach addr n = n

unfoldable pub namecmp : (s t : ℕ) → Memory → ℤ
namecmp s t m = strncmp s t dirsiz m

abbrev pub is_zero : ℤ → Bool
is_zero (pos k) = k == 0
is_zero (negsuc k) = false

abbrev pub whole : ℤ × Memory × Inode × Disk → Run (Memory × Inode × Disk)
whole (pos k, m, ip, d) = if k == de_size then done (m, ip, d) else panics
whole (negsuc k, m, ip, d) = panics

-- The entry at `off` is read into `de`.
unfoldable pub read_dirent :
    Superblock → (de off : ℕ) → Memory → Inode → Disk → Run (Memory × Inode × Disk)
read_dirent sb de off m ip d = readi kernel_reach sb de off de_size m ip d >>= whole

-- The entry in memory is in use.
abbrev pub is_used : (de : ℕ) → Memory → Bool
is_used de m = not (half_at m de == 0)

-- It is in use and has the name.
abbrev pub has_name : (name de : ℕ) → Memory → Bool
has_name name de m = is_used de m && is_zero (namecmp name (de + 2) m)

-- The entry that the loop stops at: its number and its offset.
abbrev pub Found : Type 0
Found = Option (ℕ × ℕ)

-- The loop over the entries that stops at the first that passes a test.
unfoldable pub entries :
    Superblock
    → (Memory → Bool)
    → (de fuel off : ℕ) → Memory
    → Inode
    → Disk
    → Run (Found × Memory × Inode × Disk)
entries sb test de zero off m ip d = if ltb off ip.size then out_of_fuel else done (none, m, ip, d)
entries sb test de (suc fuel) off m ip d =
    if not (ltb off ip.size) then done (none, m, ip, d) else elim (read_dirent sb de off m ip d) [
      | panics ↦ panics
      | out_of_fuel ↦ out_of_fuel
      | done (m', ip', d') ↦
          let rest = entries sb test de fuel (off + de_size) m' ip' d' in
          if test m' then done (some (half_at m' de, off), m', ip', d') else rest
    ]

-- A file has `size / de_size` entries, and one more if the last is cut off.
abbrev pub entry_fuel : Inode → ℕ
entry_fuel ip = ip.size / de_size + 1

abbrev pub get_found :
    (dp : ℕ) → World → Found × Memory × Inode × Disk → Run (Option (ℕ × ℕ) × Memory × World)
get_found dp w (none, m, ip, d) = done (none, m, record { inode = update w.inode dp ip; disk = d })
get_found dp w (some (inum, off), m, ip, d) =
    iget ip.dev inum (record { inode = update w.inode dp ip; disk = d })
    >>= (λ r. done (some (r.0, off), m, r.1))

-- The slot of the inode that the entry names, with a reference more, and the entry's offset.
unfoldable pub dirlookup :
    Superblock → (de dp name : ℕ) → Memory → World → Run (Option (ℕ × ℕ) × Memory × World)
dirlookup sb de dp name m w =
    let ip = w.inode dp in
    if not (ip.type == t_dir)
    then panics
    else entries sb (has_name name de) de (entry_fuel ip) 0 m ip w.disk >>= get_found dp w

-- The offset of the first entry that is not in use, or the end of the directory.
abbrev pub free_offset : Found → (size : ℕ) → ℕ
free_offset none size = (size + de_size - 1) / de_size * de_size
free_offset (some (inum, off)) size = off

abbrev pub put_half : ℕ → ℕ → Memory → Memory
put_half a v m = update (update m a (v % 256)) (a + 1) (v / 256 % 256)

-- `strncpy(de.name, name, DIRSIZ); de.inum = inum;`
abbrev pub make_dirent : (de name inum : ℕ) → Memory → Memory
make_dirent de name inum m = put_half de inum (strncpy (de + 2) name (pos dirsiz) m)

abbrev pub linked : (dp : ℕ) → Memory → World → ℤ × Inode × Disk → ℤ × Memory × World
linked dp m w (pos k, ip, d) =
    (if k == de_size then pos 0 else negsuc 0, m, record { inode = update w.inode dp ip; disk = d })
linked dp m w (negsuc k, ip, d) = (negsuc 0, m, record { inode = update w.inode dp ip; disk = d })

abbrev pub link_at :
    Superblock
    → (de dp name inum : ℕ) → World
    → Found × Memory × Inode × Disk
    → Run (ℤ × Memory × World)
link_at sb de dp name inum w (at, m, ip, d) =
    let m' = make_dirent de name inum m in
    writei kernel_reach sb m' de (free_offset at ip.size) de_size ip d
    >>= (λ r. done (linked dp m' w r))

abbrev pub link_new :
    Superblock → (de dp name inum : ℕ) → Option (ℕ × ℕ) × Memory × World → Run (ℤ × Memory × World)
link_new sb de dp name inum (some (i, off), m, w) = iput sb i w >>= (λ w'. done (negsuc 0, m, w'))
link_new sb de dp name inum (none, m, w) =
    let ip = w.inode dp in
    entries sb (λ m. not (is_used de m)) de (entry_fuel ip) 0 m ip w.disk
    >>= link_at sb de dp name inum w

unfoldable pub dirlink :
    Superblock → (de dp name inum : ℕ) → Memory → World → Run (ℤ × Memory × World)
dirlink sb de dp name inum m w = dirlookup sb de dp name m w >>= link_new sb de dp name inum

abbrev pub none_used : Found × Memory × Inode × Disk → Run (Bool × Memory × Inode × Disk)
none_used (none, m, ip, d) = done (true, m, ip, d)
none_used (some e, m, ip, d) = done (false, m, ip, d)

-- `isdirempty`: no entry behind the first two is in use.
unfoldable pub isdirempty :
    Superblock → (de : ℕ) → Memory → Inode → Disk → Run (Bool × Memory × Inode × Disk)
isdirempty sb de m ip d =
    entries sb (is_used de) de (entry_fuel ip) (2 * de_size) m ip d >>= none_used
