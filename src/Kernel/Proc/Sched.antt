-- ===== src/Kernel/Proc/Sched.antt =====
-- kernel/proc.c: `sleep`, `wakeup`, `yield`, `sched` and a round of `scheduler`.
use xv6_tp.Base.{ℕ, Bool, ◌&&◌, not, ◌||◌, Option, none, some, ◌==◌, ltb, if◌then◌else◌, update}
use xv6_tp.Kernel.Proc.{
  ProcState, sleeping, runnable, running, same_state, nproc, Kernel, set_proc, is_state,
}

-- `wakeup`: every process but the caller `me` that sleeps on `chan` becomes runnable.
unfoldable pub wakeup : (me chan : ℕ) → Kernel → Kernel
wakeup me chan k = record k {
  proc = λ i.
      if ltb i nproc && not (i == me) && is_state sleeping k i && (k.proc i).chan == chan
      then record (k.proc i) { state = runnable }
      else k.proc i;
}

-- `sleep` by the process `me`, up to its call of `sched`.
unfoldable pub sleep_on : (me chan : ℕ) → Kernel → Kernel
sleep_on me chan k = set_proc k me (record (k.proc me) { chan = chan; state = sleeping })

-- What `sleep` does when it is scheduled again, before it takes the lock back.
unfoldable pub sleep_wakes : ℕ → Kernel → Kernel
sleep_wakes me k = set_proc k me (record (k.proc me) { chan = 0 })

-- `yield`, up to its call of `sched`.
unfoldable pub yield_cpu : ℕ → Kernel → Kernel
yield_cpu me k = set_proc k me (record (k.proc me) { state = runnable })

-- The conditions under which `sched` panics.
unfoldable pub sched_panics : (holding : Bool) → (noff : ℕ) → ProcState → (intr : Bool) → Bool
sched_panics holding noff state intr =
    not holding || (not (noff == 1) || (same_state state running || intr))

-- `cpus[].proc`, with the table.
pub record Machine : Type 0 where
  pub kernel : Kernel
  pub cpu : ℕ → Option ℕ

-- `scheduler` on CPU `c` at slot `i`: it runs a runnable process, and passes over any other.
unfoldable pub schedule : (c i : ℕ) → Machine → Machine
schedule c i m =
    if is_state runnable m.kernel i
    then record {
      kernel = set_proc m.kernel i (record (m.kernel.proc i) { state = running });
      cpu = update m.cpu c (some i);
    }
    else m

-- `scheduler` when the process that it ran switches back.
unfoldable pub unschedule : (c : ℕ) → Machine → Machine
unschedule c m = record m { cpu = update m.cpu c none }
