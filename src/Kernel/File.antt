-- ===== src/Kernel/File.antt =====
-- kernel/file.c and the part of kernel/sysfile.c that works on descriptors: the file table, the
-- descriptor tables of the processes, and the calls on them.
--
-- A file is known by its slot of `ftable`, an inode and a pipe by a number, a process by its slot of
-- the process table. What these functions ask of the inode layer and of the pipes is a list of calls;
-- the answer of a failing call (`kalloc`, `copyout`, `namei`) is an argument.
pub mod Descriptors
pub mod Counts
pub mod Calls
pub mod Transfer
pub mod Written
pub mod Seek
pub mod Open
pub mod Opened
pub mod Sequence
mod Tests
use xv6_tp.Base.{
  ℕ, zero, suc, ◌+◌, Bool, true, false, ◌||◌, Option, none, some, List, [], ◌∷◌, ◌++◌, ◌==◌, ltb,
  if◌then◌else◌, ℤ, update, find_first,
}
use xv6_tp.Base.Run.{Run, done, panics, ◌>>=◌}

pub data FileType : Type 0 where
  fd_none fd_pipe fd_inode fd_device : FileType

abbrev pub nfile : ℕ
nfile = 100

-- `struct file`, less `executable`, which no code reads or writes.
pub record File : Type 0 where
  pub type : FileType
  pub ref : ℕ
  pub readable : Bool
  pub writable : Bool
  pub pipe : ℕ
  pub ip : Option ℕ
  pub off : ℕ
  pub major : ℤ

pub data Call : Type 0 where
  pipeclose : (pipe : ℕ) (writable : Bool) → Call
  begin_op end_op : Call
  namei create : Call
  ilock iunlock iunlockput iput itrunc : (ip : ℕ) → Call

-- `ofile me fd` is `proc[me].ofile[fd]`.
pub record Files : Type 0 where
  pub file : ℕ → File
  pub ofile : ℕ → ℕ → Option ℕ
  pub calls : List Call

abbrev pub set_file : ℕ → File → Files → Files
set_file f x s = record s { file = update s.file f x }

abbrev pub calls_of : List Call → Files → Files
calls_of l s = record s { calls = s.calls ++ l }

abbrev pub set_ofile : (me fd : ℕ) → Option ℕ → Files → Files
set_ofile me fd o s = record s { ofile = update s.ofile me (update (s.ofile me) fd o) }

abbrev pub unreferenced : Files → ℕ → Bool
unreferenced s f = (s.file f).ref == 0

pub filealloc : Files → Option ℕ × Files
filealloc s = elim (find_first (unreferenced s) nfile) [
  | none ↦ (none, s)
  | some f ↦ (some f, set_file f (record (s.file f) { ref = 1 }) s)
]

pub filedup : ℕ → Files → Run Files
filedup f s =
    if ltb (s.file f).ref 1
    then panics
    else done (set_file f (record (s.file f) { ref = (s.file f).ref + 1 }) s)

-- What the last close of a file does once the table is unlocked.
pub put_file : File → Files → Files
put_file ff s = elim ff.type [
  | fd_pipe ↦ calls_of (pipeclose ff.pipe ff.writable ∷ []) s
  | fd_none ↦ s
  | _ ↦ calls_of (begin_op ∷ (elim ff.ip [ none ↦ [] | some ip ↦ iput ip ∷ [] ]) ++ (end_op ∷ [])) s
]

pub fileclose : ℕ → Files → Run Files
fileclose f s = elim (s.file f).ref [
  | zero ↦ panics
  | suc n ↦
      if ltb 0 n
      then done (set_file f (record (s.file f) { ref = n }) s)
      else done (
          put_file (record (s.file f) { ref = 0 })
            (set_file f (record (s.file f) { ref = 0; type = fd_none }) s))
]
