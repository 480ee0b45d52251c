-- ===== src/Kernel/File/Open.antt =====
-- kernel/sysfile.c: `sys_open`.
--
-- `create` and `namei` belong to the inode layer: their answer is an argument, and the call is in the
-- list of calls, as are the other calls on the inode. The inode is as it is once locked.
use Prim.Native.Nat.{bit_and}
use xv6_tp.Base.{
  ℕ, Bool, true, false, not, ◌&&◌, ◌||◌, Option, none, some, List, [], ◌∷◌, ◌==◌, if◌then◌else◌, ℤ,
  pos, negsuc, array_index,
}
use xv6_tp.Base.Run.{Run, done, ◌>>=◌}
use xv6_tp.Kernel.File.{
  Files, fd_inode, fd_device, Call, begin_op, end_op, namei, create, ilock, iunlock, iunlockput,
  itrunc, set_file, calls_of, filealloc, fileclose,
}
use xv6_tp.Kernel.File.Descriptors.{fdalloc}
use xv6_tp.Kernel.File.Transfer.{Inode, ndev, s_irusr, s_iwusr, t_dir}

abbrev pub o_rdonly : ℕ
o_rdonly = 0

abbrev pub o_wronly : ℕ
o_wronly = 1

abbrev pub o_rdwr : ℕ
o_rdwr = 2

abbrev pub o_create : ℕ
o_create = 512

abbrev pub o_trunc : ℕ
o_trunc = 1024

abbrev pub t_file : ℕ
t_file = 2

abbrev pub t_device : ℕ
t_device = 3

abbrev pub has : ℕ → ℕ → Bool
has x bit = not (bit_and x bit == 0)

-- A test of the flags and the inode fails, with the calls that are made before -1 is answered.
abbrev pub fails_with : List Call → Files → Run (ℤ × Files)
fails_with l s = done (negsuc 0, calls_of l s)

-- The inode's file is set up and the inode is unlocked.
abbrev pub opened : (omode ip : ℕ) → Inode → (f fd : ℕ) → Files → ℤ × Files
opened omode ip node f fd s =
    let x = s.file f in
    let x' =
      if node.type == t_device
      then record x { type = fd_device; major = node.major }
      else record x { type = fd_inode; off = 0 } in
    let s' =
      set_file f
        (record x' {
          ip = some ip;
          readable = not (has omode o_wronly);
          writable = has omode o_wronly || has omode o_rdwr;
        })
        s in
    let s'' =
      if has omode o_trunc && (node.type == t_file) then calls_of (itrunc ip ∷ []) s' else s' in
    (pos fd, calls_of (iunlock ip ∷ end_op ∷ []) s'')

abbrev pub open_fd : (omode ip : ℕ) → Inode → (f : ℕ) → Option ℕ × Files → Run (ℤ × Files)
open_fd omode ip node f (none, s) = fileclose f s >>= fails_with (iunlockput ip ∷ end_op ∷ [])
open_fd omode ip node f (some fd, s) = done (opened omode ip node f fd s)

abbrev pub open_file : (omode ip : ℕ) → Inode → (me : ℕ) → Option ℕ × Files → Run (ℤ × Files)
open_file omode ip node me (none, s) = fails_with (iunlockput ip ∷ end_op ∷ []) s
open_file omode ip node me (some f, s) = open_fd omode ip node f (fdalloc me f s)

abbrev pub bad_device : Inode → Bool
bad_device node =
    (node.type == t_device) && (elim (array_index ndev node.major) [ none ↦ true | some m ↦ false ])

-- The flags ask for `bit` of the mode and a file that is not a directory lacks it.
abbrev pub refused : (omode flag bit : ℕ) → Inode → Bool
refused omode flag bit node = has omode flag && not (has node.mode bit) && not (node.type == t_dir)

-- From the point where the inode is locked.
abbrev pub open_inode : (omode ip : ℕ) → Inode → (me : ℕ) → Files → Run (ℤ × Files)
open_inode omode ip node me s =
    if bad_device node
    then fails_with (iunlockput ip ∷ end_op ∷ []) s
    else if refused omode o_rdonly s_irusr node
    then fails_with (iunlockput ip ∷ []) s
    else if refused omode o_wronly s_iwusr node
    then fails_with (iunlockput ip ∷ []) s
    else open_file omode ip node me (filealloc s)

abbrev pub open_created :
    (omode : ℕ) (inode : ℕ → Inode) (me : ℕ) → Option ℕ → Files → Run (ℤ × Files)
open_created omode inode me none s = fails_with (end_op ∷ []) s
open_created omode inode me (some ip) s = open_inode omode ip (inode ip) me s

abbrev pub open_named :
    (omode : ℕ) (inode : ℕ → Inode) (me : ℕ) → Option ℕ → Files → Run (ℤ × Files)
open_named omode inode me none s = fails_with (end_op ∷ []) s
open_named omode inode me (some ip) s =
    let s' = calls_of (ilock ip ∷ []) s in
    if ((inode ip).type == t_dir) && not (omode == o_rdonly)
    then fails_with (iunlockput ip ∷ end_op ∷ []) s'
    else open_inode omode ip (inode ip) me s'

-- `path` says whether `argstr` reads the path, and `found` is the answer of `create` or `namei`.
unfoldable pub sys_open :
    (inode : ℕ → Inode) (path : Bool) (found : Option ℕ) (me omode : ℕ) → Files → Run (ℤ × Files)
sys_open inode path found me omode s =
    if not path
    then done (negsuc 0, s)
    else if has omode o_create
    then open_created omode inode me found (calls_of (begin_op ∷ create ∷ []) s)
    else open_named omode inode me found (calls_of (begin_op ∷ namei ∷ []) s)
