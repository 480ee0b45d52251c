-- ===== src/Kernel/File/Descriptors.antt =====
-- kernel/sysfile.c: `argfd`, `fdalloc`, `sys_dup`, `sys_close` and `sys_pipe`, and `pipealloc` of
-- kernel/pipe.c.
use xv6_tp.Base.{
  ℕ, zero, suc, Bool, true, false, Option, none, some, if◌then◌else◌, ℤ, pos, negsuc, find_first,
  array_index,
}
use xv6_tp.Base.Run.{Run, done, ◌>>=◌}
use xv6_tp.Kernel.Proc.{nofile}
use xv6_tp.Kernel.File.{Files, fd_pipe, set_file, set_ofile, filealloc, filedup, fileclose}

-- The descriptor and its file, if the process has it open.
unfoldable pub argfd : ℕ → ℤ → Files → Option (ℕ × ℕ)
argfd me n s = elim (array_index nofile n) [
  | none ↦ none
  | some fd ↦ elim (s.ofile me fd) [ none ↦ none | some f ↦ some (fd, f) ]
]

abbrev pub is_free : ℕ → Files → ℕ → Bool
is_free me s fd = elim (s.ofile me fd) [ none ↦ true | some f ↦ false ]

unfoldable pub fdalloc : ℕ → ℕ → Files → Option ℕ × Files
fdalloc me f s = elim (find_first (is_free me s) nofile) [
  | none ↦ (none, s)
  | some fd ↦ (some fd, set_ofile me fd (some f) s)
]

abbrev pub dup_installed : ℕ → Option ℕ × Files → Run (ℤ × Files)
dup_installed f (none, s) = done (negsuc 0, s)
dup_installed f (some fd, s) = filedup f s >>= (λ t. done (pos fd, t))

unfoldable pub sys_dup : ℕ → ℤ → Files → Run (ℤ × Files)
sys_dup me n s = elim (argfd me n s) [
  | none ↦ done (negsuc 0, s)
  | some (fd, f) ↦ dup_installed f (fdalloc me f s)
]

unfoldable pub sys_close : ℕ → ℤ → Files → Run (ℤ × Files)
sys_close me n s = elim (argfd me n s) [
  | none ↦ done (negsuc 0, s)
  | some (fd, f) ↦ fileclose f (set_ofile me fd none s) >>= (λ t. done (pos 0, t))
]

abbrev pub pipe_end : (writable : Bool) (pi f : ℕ) → Files → Files
pipe_end w pi f s =
    set_file f
      (record (s.file f) {
        type = fd_pipe;
        readable = if w then false else true;
        writable = w;
        pipe = pi;
      })
      s

abbrev pub pipe_pages : (page f0 f1 : ℕ) → Files → Run (Option (ℕ × ℕ) × Files)
pipe_pages zero f0 f1 s = fileclose f0 s >>= (λ t. fileclose f1 t >>= (λ u. done (none, u)))
pipe_pages (suc p) f0 f1 s =
    done (some (f0, f1), pipe_end true (suc p) f1 (pipe_end false (suc p) f0 s))

abbrev pub pipe_second : (page f0 : ℕ) → Option ℕ × Files → Run (Option (ℕ × ℕ) × Files)
pipe_second page f0 (none, s) = fileclose f0 s >>= (λ t. done (none, t))
pipe_second page f0 (some f1, s) = pipe_pages page f0 f1 s

abbrev pub pipe_first : (page : ℕ) → Option ℕ × Files → Run (Option (ℕ × ℕ) × Files)
pipe_first page (none, s) = done (none, s)
pipe_first page (some f0, s) = pipe_second page f0 (filealloc s)

-- `page` is the answer of `kalloc`, 0 if it fails. The answer is the two files.
unfoldable pub pipealloc : (page : ℕ) → Files → Run (Option (ℕ × ℕ) × Files)
pipealloc page s = pipe_first page (filealloc s)

abbrev pub close_both : ℕ → ℕ → Files → Run (ℤ × Files)
close_both rf wf s = fileclose rf s >>= (λ t. fileclose wf t >>= (λ u. done (negsuc 0, u)))

abbrev pub install_second : (copied : Bool) (me rf wf fd0 : ℕ) → Option ℕ × Files → Run (ℤ × Files)
install_second copied me rf wf fd0 (none, s) = close_both rf wf (set_ofile me fd0 none s)
install_second copied me rf wf fd0 (some fd1, s) =
    if copied
    then done (pos 0, s)
    else close_both rf wf (set_ofile me fd1 none (set_ofile me fd0 none s))

abbrev pub install_first : (copied : Bool) (me rf wf : ℕ) → Option ℕ × Files → Run (ℤ × Files)
install_first copied me rf wf (none, s) = close_both rf wf s
install_first copied me rf wf (some fd0, s) = install_second copied me rf wf fd0 (fdalloc me wf s)

abbrev pub pipe_installed : (copied : Bool) → ℕ → Option (ℕ × ℕ) × Files → Run (ℤ × Files)
pipe_installed copied me (none, s) = done (negsuc 0, s)
pipe_installed copied me (some (rf, wf), s) = install_first copied me rf wf (fdalloc me rf s)

-- `copied` says whether both numbers reach the caller's memory.
unfoldable pub sys_pipe : ℕ → (page : ℕ) (copied : Bool) → Files → Run (ℤ × Files)
sys_pipe me page copied s = pipealloc page s >>= pipe_installed copied me
