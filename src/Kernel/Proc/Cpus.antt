-- ===== src/Kernel/Proc/Cpus.antt =====
-- The CPUs and the processes that they run, as interleaved steps.
use xv6_tp.Base.{ℕ, ◌≡◌, ◌≢◌, ◌<◌, Bool, none, some, arith, ℤ}
use xv6_tp.Kernel.Proc.{running, nproc, Kernel}
use xv6_tp.Kernel.Proc.Sched.{wakeup, sleep_on, yield_cpu, Machine, schedule, unschedule}
use xv6_tp.Kernel.Proc.Life.{kill, setkilled, fork, exit, wait, answers, waits}
use xv6_tp.Kernel.Proc.Running.{
  KeepsRunning, KeepsAll, wakeup-KeepsAll, kill-KeepsAll, fork-keeps, exit-keeps, wait-keeps,
  wait_sleep-keeps,
}

abbrev pub with_kernel : Kernel → Machine → Machine
with_kernel k m = record m { kernel = k }

-- A CPU that runs nothing picks a runnable process; the process on a CPU makes a call and goes on,
-- or makes a call that ends in `sched`; an interrupt handler wakes sleepers.
pub data Step (adr : ℕ → ℕ) (m : Machine) : Machine → Type 0 where
  run : (c i : ℕ) → m.cpu c ≡ none → i < nproc → Step adr m (schedule c i m)
  wakes : (me chan : ℕ) → Step adr m (with_kernel (wakeup me chan m.kernel) m)
  kills : (pid : ℕ) → Step adr m (with_kernel (kill pid m.kernel).1 m)
  set_killed : (i : ℕ) → Step adr m (with_kernel (setkilled i m.kernel) m)
  forks :
      (c me forkret page table : ℕ) (copied : Bool)
      → m.cpu c ≡ some me
      → Step adr m (with_kernel (fork forkret page table copied me m.kernel).1 m)
  reaps :
      (c me : ℕ) (to_user copied : Bool) {r : ℤ} {k : Kernel}
      → m.cpu c ≡ some me
      → wait adr to_user copied me m.kernel ≡ answers r k
      → Step adr m (with_kernel k m)
  waits_for :
      (c me : ℕ) (to_user copied : Bool) {k : Kernel}
      → m.cpu c ≡ some me
      → wait adr to_user copied me m.kernel ≡ waits k
      → Step adr m (unschedule c (with_kernel k m))
  sleeps :
      (c me chan : ℕ)
      → m.cpu c ≡ some me
      → Step adr m (unschedule c (with_kernel (sleep_on me chan m.kernel) m))
  yields :
      (c me : ℕ)
      → m.cpu c ≡ some me
      → Step adr m (unschedule c (with_kernel (yield_cpu me m.kernel) m))
  exits :
      (c me : ℕ) (status : ℤ) {k : Kernel}
      → m.cpu c ≡ some me
      → exit adr me status m.kernel ≡ some k
      → Step adr m (unschedule c (with_kernel k m))

pub data Reach (adr : ℕ → ℕ) (s : Machine) : Machine → Type 0 where
  here : Reach adr s s
  next : {t u : Machine} → Reach adr s t → Step adr t u → Reach adr s u

pub record Inv (m : Machine) : Type 0 where
  pub runs : (c i : ℕ) → m.cpu c ≡ some i → (m.kernel.proc i).state ≡ running
  pub once : (c d i : ℕ) → m.cpu c ≡ some i → m.cpu d ≡ some i → c ≡ d

module _ {m : Machine} (inv : Inv m) where
  open inv use {runs, once}

  call-Inv : (k : Kernel) → KeepsAll m.kernel k → Inv (with_kernel k m)
  call-Inv k keeps = record { runs = λ c i e. keeps i (runs c i e); once = once }

  end-Inv :
      (c me : ℕ) (k : Kernel)
      → m.cpu c ≡ some me
      → KeepsRunning me m.kernel k
      → Inv (unschedule c (with_kernel k m))
  unfolding unschedule
  end-Inv c me k on keeps = record {
    runs = λ d i e.
        let away : d ≢ c = ground arith in
        let still : m.cpu d ≡ some i = ground arith in
        keeps i (λ same. away (once d c i still (rw same on))) (runs d i still);
    once = λ d f i e g. once d f i (ground arith) (ground arith);
  }

  schedule-Inv : (c i : ℕ) → m.cpu c ≡ none → Inv (schedule c i m)
  unfolding schedule
  schedule-Inv c i idle = record {
    runs = λ d j e. ground (arith, runs d j);
    once = λ d f j e g. ground (arith, once d f j, runs d j, runs f j);
  }

set_killed-keeps : (i : ℕ) (k : Kernel) → KeepsAll k (setkilled i k)
unfolding setkilled
set_killed-keeps i k j r = ground arith

sleep_on-keeps : (me chan : ℕ) (k : Kernel) → KeepsRunning me k (sleep_on me chan k)
unfolding sleep_on
sleep_on-keeps me chan k i ne r = ground arith

yield_cpu-keeps : (me : ℕ) (k : Kernel) → KeepsRunning me k (yield_cpu me k)
unfolding yield_cpu
yield_cpu-keeps me k i ne r = ground arith

pub Step-Inv : {adr : ℕ → ℕ} {m n : Machine} → Inv m → Step adr m n → Inv n
Step-Inv inv (run c i idle lt) = schedule-Inv inv c i idle
Step-Inv {m} inv (wakes me chan) = call-Inv inv _ (wakeup-KeepsAll me chan m.kernel)
Step-Inv {m} inv (kills pid) = call-Inv inv _ (kill-KeepsAll pid m.kernel)
Step-Inv {m} inv (set_killed i) = call-Inv inv _ (set_killed-keeps i m.kernel)
Step-Inv {m} inv (forks c me forkret page table copied on) =
    call-Inv inv _ (fork-keeps forkret page table copied me m.kernel)
Step-Inv {adr} {m} inv (reaps c me to_user copied on e) =
    call-Inv inv _ (wait-keeps adr to_user copied me m.kernel e)
Step-Inv {adr} {m} inv (waits_for c me to_user copied on e) =
    end-Inv inv c me _ on (wait_sleep-keeps adr to_user copied me m.kernel e)
Step-Inv {m} inv (sleeps c me chan on) = end-Inv inv c me _ on (sleep_on-keeps me chan m.kernel)
Step-Inv {m} inv (yields c me on) = end-Inv inv c me _ on (yield_cpu-keeps me m.kernel)
Step-Inv {adr} {m} inv (exits c me status on e) =
    end-Inv inv c me _ on (exit-keeps adr me status m.kernel e)

pub Reach-Inv : {adr : ℕ → ℕ} {s m : Machine} → ((c : ℕ) → s.cpu c ≡ none) → Reach adr s m → Inv m
Reach-Inv idle here = record {
  runs = λ c i e. absurd (ground (arith, idle c));
  once = λ c d i e f. absurd (ground (arith, idle c));
}
Reach-Inv idle (next r st) = Step-Inv (Reach-Inv idle r) st

-- From a machine whose CPUs are idle, every reachable state has each process on at most one CPU,
-- and a process that is on a CPU is marked as running.
pub one_cpu_each :
    {adr : ℕ → ℕ} {s m : Machine}
    → ((c : ℕ) → s.cpu c ≡ none)
    → Reach adr s m
    → (c d i : ℕ) → m.cpu c ≡ some i
    → m.cpu d ≡ some i
    → (c ≡ d) × ((m.kernel.proc i).state ≡ running)
one_cpu_each idle r c d i e f = let inv = Reach-Inv idle r in (inv.once c d i e f, inv.runs c i e)
