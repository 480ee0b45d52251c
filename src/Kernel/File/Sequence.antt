-- ===== src/Kernel/File/Sequence.antt =====
-- Sequences of calls on descriptors, by any processes.
use xv6_tp.Base.{ℕ, ◌≡◌, ◌<◌, Bool, List, [], ◌∷◌, arith, refl, ℤ}
use xv6_tp.Base.Run.{Run, done, ◌>>=◌}
use xv6_tp.Kernel.Proc.{nproc}
use xv6_tp.Kernel.File.{Files}
use xv6_tp.Kernel.File.Counts.{Balanced}
use xv6_tp.Kernel.File.Descriptors.{sys_dup, sys_close, sys_pipe}
use xv6_tp.Kernel.File.Calls.{Fine, sys_dup-Fine, sys_close-Fine, sys_pipe-Fine}

-- A call of a process on its descriptors.
pub data Syscall : Type 0 where
  dup close : (me : ℕ) (fd : ℤ) → Syscall
  pipe : (me page : ℕ) (copied : Bool) → Syscall

abbrev pub caller : Syscall → ℕ
caller (dup me fd) = me
caller (close me fd) = me
caller (pipe me page copied) = me

-- All callers are processes of the table.
pub data Callers : List Syscall → Type 0 where
  nobody : Callers []
  also : {c : Syscall} {l : List Syscall} → caller c < nproc → Callers l → Callers (c ∷ l)

pub perform : Syscall → Files → Run (ℤ × Files)
perform (dup me fd) s = sys_dup me fd s
perform (close me fd) s = sys_close me fd s
perform (pipe me page copied) s = sys_pipe me page copied s

pub perform_all : List Syscall → Files → Run Files
perform_all [] s = done s
perform_all (c ∷ l) s = perform c s >>= (λ out. perform_all l out.1)

perform-Fine : (c : Syscall) (s : Files) → caller c < nproc → Balanced s → Fine (perform c s)
unfolding perform
perform-Fine (dup me fd) s h b = sys_dup-Fine me fd s h b
perform-Fine (close me fd) s h b = sys_close-Fine me fd s h b
perform-Fine (pipe me page copied) s h b = sys_pipe-Fine me page copied s h b

-- Any sequence of `dup`, `close` and `pipe` calls, by any processes and with any arguments, runs to
-- its end without a panic, and then the count of each file is the number of descriptors that hold
-- it, and a file with no reference has type `FD_NONE`, if this was so at the start.
pub counts_right :
    (l : List Syscall) (s : Files)
    → Callers l
    → Balanced s
    → (t : Files) × (perform_all l s ≡ done t) × Balanced t
unfolding perform_all
counts_right [] s nobody b = (s, refl, b)
counts_right (c ∷ l) s (also h hs) b =
    let (out, done_out, bo) = perform-Fine c s h b in
    let (t, done_t, bt) = counts_right l out.1 hs bo in (t, ground (arith, done_out, done_t), bt)
