-- ===== src/Kernel/File/Tests.antt =====
-- The theorems at a process with one file open, and at a small inode layer.
use xv6_tp.Base.{
  ◌+◌, ◌≡◌, true, false, ◌&&◌, none, some, [], ◌∷◌, ◌==◌, if◌then◌else◌, arith, refl, pos, negsuc,
  ◌+ℤ◌,
}
use xv6_tp.Base.Run.{done}
use xv6_tp.Kernel.File.{File, Files, fd_none, fd_inode}
use xv6_tp.Kernel.File.Counts.{Balanced, holders, total}
use xv6_tp.Kernel.File.Descriptors.{argfd}
use xv6_tp.Kernel.File.Transfer.{Inode, seek_file, sys_lseek}
use xv6_tp.Kernel.File.Seek.{in_file, base_of, sys_lseek-in_file}
use xv6_tp.Kernel.File.Opened.{Leaves, begins, ends, leaks, one_if, sys_open-Leaves}
use xv6_tp.Kernel.File.Open.{sys_open}
use xv6_tp.Kernel.File.Sequence.{dup, close, pipe, nobody, also, perform_all, counts_right}

abbrev no_file : File
no_file = record {
  type = fd_none;
  ref = 0;
  readable = false;
  writable = false;
  pipe = 0;
  ip = none;
  off = 0;
  major = pos 0;
}

-- No file is open.
abbrev closed : Files
closed = record { file = λ f. no_file; ofile = λ me fd. none; calls = [] }

closed-Balanced : Balanced closed
unfolding holders total
closed-Balanced = record { refs = λ f. refl; idle = λ f e. refl }

counts_right_example :
    (t : Files) × (perform_all (pipe 0 8192 true ∷ dup 0 (pos 1) ∷ close 0 (pos 0) ∷ []) closed
      ≡ done t)
    × Balanced t
counts_right_example =
    counts_right (pipe 0 8192 true ∷ dup 0 (pos 1) ∷ close 0 (pos 0) ∷ []) closed
      (also (omega arith) (also (omega arith) (also (omega arith) nobody))) closed-Balanced

-- A file of an inode at offset 7, in descriptor 3 of process 0.
abbrev log_file : File
log_file = record no_file { type = fd_inode; ref = 1; writable = true; ip = some 5; off = 7 }

abbrev one_open : Files
one_open = record {
  file = λ f. if f == 2 then log_file else no_file;
  ofile = λ me fd. if (me == 0) && (fd == 3) then some 2 else none;
  calls = [];
}

abbrev small_inode : Inode
small_inode = record { type = 2; major = pos 0; size = 20; mode = 6 }

sys_lseek-in_file_example :
    sys_lseek (λ i. small_inode) 0 (pos 3) (negsuc 4) 2 one_open
    ≡ done (seek_file 2 one_open (in_file 20 (pos (base_of 20 7 2) +ℤ negsuc 4)))
unfolding argfd
sys_lseek-in_file_example =
    sys_lseek-in_file (λ i. small_inode) 0 (pos 3) (negsuc 4) 2 one_open 3 2 5 refl refl
      (omega arith) (omega arith) (omega arith, omega arith) (omega arith) (λ e. omega arith)

-- A file that may only be read, opened for writing.
abbrev read_only : Inode
read_only = record small_inode { mode = 4 }

sys_open-Leaves_example :
    Leaves
      (0 + one_if (leaks (λ i. read_only) true (some 5) 1))
      (sys_open (λ i. read_only) true (some 5) 0 1 closed)
unfolding begins ends
sys_open-Leaves_example =
    sys_open-Leaves (λ i. read_only) true (some 5) 0 1 closed 0 (omega arith) closed-Balanced
      (record { ledger = refl })

-- The call leaves a transaction open.
read_only-leaks : leaks (λ i. read_only) true (some 5) 1 ≡ true
read_only-leaks = refl
