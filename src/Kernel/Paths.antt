-- ===== src/Kernel/Paths.antt =====
-- kernel/sysfile.c: the calls that change links and modes: `sys_link`, `sys_unlink`, `create`,
-- `sys_mkdir`, `sys_mknod`, `sys_chdir` and `sys_chmod`.
--
-- The state has the references, locks, link counts and modes of the inodes, the link counts and modes
-- that `iupdate` has put on the disk (`saved`), and the number of transactions that are open.
-- What `namei`, `nameiparent`, `dirlookup`, `dirlink`, `ialloc` and `isdirempty` answer is an argument; the
-- reference that comes with an inode is taken when the answer is looked at. `path` says whether
-- `argstr` reads the path. To lock an inode that is locked never ends: `out_of_fuel`.
pub mod Holds
pub mod Link
pub mod Unlink
pub mod Create
pub mod Mode
mod Tests
use xv6_tp.Base.{
  ℕ, suc, ◌+◌, ◌-◌, ◌%◌, ◌^◌, Bool, true, false, not, ◌&&◌, ◌||◌, Option, none, some, ◌==◌, ltb,
  if◌then◌else◌, update, ℤ, pos, negsuc,
}
use xv6_tp.Base.Run.{Run, done, panics, out_of_fuel, ◌>>=◌}
use xv6_tp.Kernel.File.Transfer.{t_dir}
use xv6_tp.Kernel.File.Open.{t_file, t_device}

pub record State : Type 0 where
  pub refs : ℕ → ℕ
  pub locked : ℕ → Bool
  pub nlink : ℕ → ℕ
  pub mode : ℕ → ℕ
  pub saved : ℕ → ℕ × ℕ
  pub transactions : ℕ

abbrev pub begin_op : State → State
begin_op s = record s { transactions = s.transactions + 1 }

abbrev pub end_op : State → State
end_op s = record s { transactions = s.transactions - 1 }

-- The reference that comes with an answer.
abbrev pub take : ℕ → State → State
take ip s = record s { refs = update s.refs ip (s.refs ip + 1) }

abbrev pub iput : ℕ → State → State
iput ip s = record s { refs = update s.refs ip (s.refs ip - 1) }

abbrev pub lock : ℕ → State → Run State
lock ip s =
    if s.refs ip == 0
    then panics
    else if s.locked ip
    then out_of_fuel
    else done (record s { locked = update s.locked ip true })

abbrev pub unlock : ℕ → State → Run State
unlock ip s =
    if not (s.locked ip) || s.refs ip == 0
    then panics
    else done (record s { locked = update s.locked ip false })

abbrev pub unlock_put : ℕ → State → Run State
unlock_put ip s = unlock ip s >>= (λ s. done (iput ip s))

abbrev pub iupdate : ℕ → State → State
iupdate ip s = record s { saved = update s.saved ip (s.nlink ip, s.mode ip) }

-- A new link count, and the `iupdate` that follows.
abbrev pub set_links : ℕ → ℕ → State → State
set_links ip n s = iupdate ip (record s { nlink = update s.nlink ip n })

-- `nlink++` and `nlink--` on a short.
abbrev pub more_links : ℕ → State → State
more_links ip s = set_links ip ((s.nlink ip + 1) % 2 ^ 16) s

abbrev pub fewer_links : ℕ → State → State
fewer_links ip s = set_links ip ((s.nlink ip + 2 ^ 16 - 1) % 2 ^ 16) s

-- The end of a call in a transaction.
abbrev pub ends : ℤ → State → Run (ℤ × State)
ends r s = done (r, end_op s)

-- `bad:` of `sys_link`
abbrev pub link_bad : ℕ → State → Run (ℤ × State)
link_bad ip s = lock ip s >>= (λ s. unlock_put ip (fewer_links ip s)) >>= ends (negsuc 0)

abbrev pub link_parent : (ip : ℕ) (links : Bool) → Option ℕ → State → Run (ℤ × State)
link_parent ip links none s = link_bad ip s
link_parent ip links (some dp) s =
    lock dp (take dp s)
    >>= unlock_put dp
    >>= (λ s. if links then ends (pos 0) (iput ip s) else link_bad ip s)

abbrev pub link_inode :
    (type : ℕ → ℕ) (links : Bool) → (parent : Option ℕ) → Option ℕ → State → Run (ℤ × State)
link_inode type links parent none s = ends (negsuc 0) s
link_inode type links parent (some ip) s =
    if type ip == t_dir
    then lock ip (take ip s) >>= unlock_put ip >>= ends (negsuc 0)
    else lock ip (take ip s) >>= (λ s. unlock ip (more_links ip s)) >>= link_parent ip links parent

-- `links`: the parent is on the same device and `dirlink` succeeds.
unfoldable pub sys_link :
    (type : ℕ → ℕ) (path : Bool) (found parent : Option ℕ) (links : Bool) → State → Run (ℤ × State)
sys_link type path found parent links s =
    if not path then done (negsuc 0, s) else link_inode type links parent found (begin_op s)

abbrev pub unlink_bad : ℕ → State → Run (ℤ × State)
unlink_bad dp s = unlock_put dp s >>= ends (negsuc 0)

-- The entry was cleared.
abbrev pub unlink_entry : (is_dir : Bool) (dp ip : ℕ) → State → Run (ℤ × State)
unlink_entry is_dir dp ip s =
    unlock_put dp (if is_dir then fewer_links dp s else s)
    >>= (λ s. unlock_put ip (fewer_links ip s))
    >>= ends (pos 0)

-- `nlink < 1` on a short.
abbrev pub no_links : ℕ → Bool
no_links n = n == 0 || ltb (2 ^ 15 - 1) n

abbrev pub unlink_locked : (is_dir empty written : Bool) (dp ip : ℕ) → State → Run (ℤ × State)
unlink_locked is_dir empty written dp ip s =
    if no_links (s.nlink ip)
    then panics
    else if is_dir && not empty
    then unlock_put ip s >>= unlink_bad dp
    else if written
    then unlink_entry is_dir dp ip s
    else panics

abbrev pub unlink_in :
    (type : ℕ → ℕ) (empty written : Bool) (dp : ℕ) → Option ℕ → State → Run (ℤ × State)
unlink_in type empty written dp none s = unlink_bad dp s
unlink_in type empty written dp (some ip) s =
    lock ip (take ip s) >>= unlink_locked (type ip == t_dir) empty written dp ip

abbrev pub unlink_from :
    (type : ℕ → ℕ) (dots : Bool) (entry : Option ℕ) (empty written : Bool)
    → Option ℕ
    → State
    → Run (ℤ × State)
unlink_from type dots entry empty written none s = ends (negsuc 0) s
unlink_from type dots entry empty written (some dp) s =
    lock dp (take dp s)
    >>= (λ s. if dots then unlink_bad dp s else unlink_in type empty written dp entry s)

-- `dots`: the name is `.` or `..`; `written`: `writei` clears the whole entry.
unfoldable pub sys_unlink :
    (type : ℕ → ℕ) (path : Bool) (parent : Option ℕ) (dots : Bool) (entry : Option ℕ)
    (empty written : Bool)
    → State
    → Run (ℤ × State)
sys_unlink type path parent dots entry empty written s =
    if not path
    then done (negsuc 0, s)
    else unlink_from type dots entry empty written parent (begin_op s)

-- `fail:` of `create`
abbrev pub create_fails : (dp ip : ℕ) → State → Run (Option ℕ × State)
create_fails dp ip s = unlock_put ip (set_links ip 0 s) >>= unlock_put dp >>= (λ s. done (none, s))

abbrev pub created : (dp ip : ℕ) → State → Run (Option ℕ × State)
created dp ip s = unlock_put dp s >>= (λ s. done (some ip, record s { mode = update s.mode ip 6 }))

abbrev pub create_new :
    (type : ℕ) (dots links : Bool) (dp : ℕ) → Option ℕ → State → Run (Option ℕ × State)
create_new type dots links dp none s = unlock_put dp s >>= (λ s. done (none, s))
create_new type dots links dp (some ip) s = lock ip (take ip s) >>= (λ s.
    if (type == t_dir) && not dots || not links
    then create_fails dp ip (set_links ip 1 s)
    else created dp ip
        (if type == t_dir then more_links dp (set_links ip 1 s) else set_links ip 1 s))

abbrev pub create_found : (type : ℕ) (old_type dp ip : ℕ) → State → Run (Option ℕ × State)
create_found type old_type dp ip s = unlock_put dp s >>= lock ip >>= (λ s.
    if (type == t_file) && (old_type == t_file || old_type == t_device)
    then done (some ip, s)
    else unlock_put ip s >>= (λ s. done (none, s)))

abbrev pub create_in :
    (type : ℕ) (types : ℕ → ℕ) (dots links : Bool) (alloc : Option ℕ) (dp : ℕ)
    → Option ℕ
    → State
    → Run (Option ℕ × State)
create_in type types dots links alloc dp none s = create_new type dots links dp alloc s
create_in type types dots links alloc dp (some ip) s =
    create_found type (types ip) dp ip (take ip s)

-- `dots`: the entries `.` and `..` can be made; `links`: the entry for the new inode can.
unfoldable pub create :
    (type : ℕ) (types : ℕ → ℕ) (parent entry alloc : Option ℕ) (dots links : Bool)
    → State
    → Run (Option ℕ × State)
create type types none entry alloc dots links s = done (none, s)
create type types (some dp) entry alloc dots links s =
    lock dp (take dp s) >>= create_in type types dots links alloc dp entry

abbrev pub made : Option ℕ × State → Run (ℤ × State)
made (none, s) = ends (negsuc 0) s
made (some ip, s) = unlock_put ip s >>= ends (pos 0)

-- What `sys_mkdir` and `sys_mknod` have in common.
unfoldable pub sys_make :
    (type : ℕ) (path : Bool) (types : ℕ → ℕ) (parent entry alloc : Option ℕ) (dots links : Bool)
    → State
    → Run (ℤ × State)
sys_make type path types parent entry alloc dots links s =
    if not path
    then ends (negsuc 0) (begin_op s)
    else create type types parent entry alloc dots links (begin_op s) >>= made

abbrev pub sys_mkdir :
    (path : Bool) (types : ℕ → ℕ) (parent entry alloc : Option ℕ) (dots links : Bool)
    → State
    → Run (ℤ × State)
sys_mkdir path types parent entry alloc dots links s =
    sys_make t_dir path types parent entry alloc dots links s

abbrev pub sys_mknod :
    (path : Bool) (types : ℕ → ℕ) (parent entry alloc : Option ℕ) (links : Bool)
    → State
    → Run (ℤ × State)
sys_mknod path types parent entry alloc links s =
    sys_make t_device path types parent entry alloc true links s

abbrev pub chdir_to : (types : ℕ → ℕ) (cwd : ℕ) → Option ℕ → State → Run (ℤ × ℕ × State)
chdir_to types cwd none s = done (negsuc 0, cwd, end_op s)
chdir_to types cwd (some ip) s = lock ip (take ip s) >>= (λ s.
    if not (types ip == t_dir)
    then unlock_put ip s >>= (λ s. done (negsuc 0, cwd, end_op s))
    else unlock ip s >>= (λ s. done (pos 0, ip, end_op (iput cwd s))))

-- The answer, and the directory that the process is in.
unfoldable pub sys_chdir :
    (types : ℕ → ℕ) (path : Bool) (found : Option ℕ) (cwd : ℕ) → State → Run (ℤ × ℕ × State)
sys_chdir types path found cwd s = chdir_to types cwd (if path then found else none) (begin_op s)

abbrev pub chmod_inode : (mode : ℕ) → Option ℕ → State → Run (ℤ × State)
chmod_inode mode none s = ends (negsuc 0) s
chmod_inode mode (some ip) s =
    lock ip (take ip s)
    >>= (λ s. unlock ip (iupdate ip (record s { mode = update s.mode ip (mode % 2 ^ 16) })))
    >>= ends (pos 0)

unfoldable pub sys_chmod : (mode : ℕ) (path : Bool) (found : Option ℕ) → State → Run (ℤ × State)
sys_chmod mode path found s =
    if not path then done (negsuc 0, s) else chmod_inode mode found (begin_op s)
