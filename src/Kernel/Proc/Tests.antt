-- ===== src/Kernel/Proc/Tests.antt =====
-- The theorems at a table with a first process and an exited child.
use xv6_tp.Base.{ℕ, ◌+◌, ◌≡◌, true, false, none, some, [], ◌==◌, if◌then◌else◌, arith, refl, pos}
use xv6_tp.Kernel.Proc.{unused, runnable, running, zombie, Proc, Kernel}
use xv6_tp.Kernel.Proc.Sched.{Machine, schedule}
use xv6_tp.Kernel.Proc.Life.{wait}
use xv6_tp.Kernel.Proc.Cpus.{Reach, here, next, run, one_cpu_each}
use xv6_tp.Kernel.Proc.Pids.{IsValid}
use xv6_tp.Kernel.Proc.Unique.{unique_pids, no_overflow_yet}
use xv6_tp.Kernel.Proc.Children.{Waited, wait-Waited}

abbrev blank : Proc
blank = record {
  state = unused;
  chan = 0;
  killed = false;
  xstate = pos 0;
  pid = 0;
  parent = none;
  kstack = 0;
  sz = 0;
  pagetable = 0;
  trapframe = 0;
  context = record { ra = 0; sp = 0; saved = λ r. 0 };
  ofile = λ fd. none;
  cwd = none;
  name = [];
}

-- Slot 0 holds the first process, slot 1 its child, which has exited.
abbrev family : Kernel
family = record {
  proc = λ i.
      if i == 0
      then record blank { state = runnable; pid = 1 }
      else if i == 1
      then record blank { state = zombie; pid = 2; parent = some 0 }
      else blank;
  nextpid = 3;
  initproc = 0;
  frame = λ p r. 0;
  events = [];
}

family-IsValid : IsValid family
family-IsValid = record {
  next_pos = omega arith;
  free = λ i e. ground arith;
  live = λ i e. ground arith;
  unique = λ i j h e. ground arith;
}

abbrev idle : Machine
idle = record { kernel = family; cpu = λ c. none }

abbrev first_run : Machine
first_run = schedule 0 0 idle

first_run-Reach : Reach (λ i. i + 1) idle first_run
first_run-Reach = next here (run 0 0 refl (omega arith))

one_cpu_each_example : ◌≡◌ {A = ℕ} 0 0 × ((first_run.kernel.proc 0).state ≡ running)
unfolding schedule
one_cpu_each_example = one_cpu_each (λ c. refl) first_run-Reach 0 0 0 refl refl

unique_pids_example : IsValid first_run.kernel
unfolding no_overflow_yet first_run-Reach
unique_pids_example = unique_pids (λ c. refl) family-IsValid first_run-Reach refl

wait-Waited_example :
    Waited (λ i. i + 1) false true 0 family (wait (λ i. i + 1) false true 0 family)
wait-Waited_example = wait-Waited (λ i. i + 1) false true 0 family
