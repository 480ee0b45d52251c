-- ===== src/Kernel/Proc/Unique.antt =====
-- In every reachable state of the CPUs and processes the pids are unique.
use mathlib.Core.Path.{subst}
use native.Mathlib.Decide.{ℕ_discrete}
use xv6_tp.Base.{
  ℕ, ◌-◌, ◌^◌, ltb, ◌≡◌, ◌≢◌, ◌<◌, ◌∙◌, sym, Bool, true, false, Option, none, some, Option-cases,
  inl, inr, not, ◌&&◌, arith, refl, ℤ, negsuc, for_below_inv, find_first, Bool-cases,
}
use xv6_tp.Kernel.Proc.{unused, same_state, nproc, nofile, Kernel, freeproc, allocproc}
use xv6_tp.Kernel.Proc.Slots.{Allocated, got, failed, full, allocproc-Allocated}
use xv6_tp.Kernel.Proc.Sched.{sleep_on, yield_cpu, schedule, Machine, unschedule}
use xv6_tp.Kernel.Proc.Life.{
  fork, fork_into, fork_registers, fork_files, fork_cwd, fork_start, dup_one, wait, answers, waits,
  is_child, is_zombie_child,
}
use xv6_tp.Kernel.Proc.Pids.{
  IsValid, SamePids, SamePids-refl, SamePids-trans, SamePids-IsValid, wakeup-SamePids,
  kill-SamePids, setkilled-SamePids, set-SamePids, exit-SamePids, freeproc-IsValid,
}
use xv6_tp.Kernel.Proc.Cpus.{
  Step, Reach, here, next, run, wakes, kills, set_killed, forks, reaps, waits_for, sleeps, yields,
  exits, Inv, Reach-Inv,
}

-- The first part of `fork` takes the next pid for a slot that had none.
Allocated-IsValid :
    {k : Kernel} {out : Option ℕ × Kernel}
    → Allocated k out
    → k.nextpid < 2 ^ 31 - 1
    → IsValid k
    → IsValid out.1
Allocated-IsValid {k} {out} (got j lt free first e st pids kl only) small v = record {
  next_pos = omega (arith, pids, small);
  free = λ i u. elim (ℕ_discrete i j) [
    | yes p ↦ absurd (ground (arith, p))
    | no ne ↦ ground (arith, only i ne, v.free i)
  ];
  live = λ i u. elim (ℕ_discrete i j) [
    | yes p ↦ ground (arith, p, v.next_pos)
    | no ne ↦ ground (arith, only i ne, v.live i)
  ];
  unique = λ a b h e. elim (ℕ_discrete a j) [
    | yes p ↦ elim (ℕ_discrete b j) [
      | yes q ↦ p ∙ sym q
      | no q ↦ absurd (ground (arith, p, only b q, v.live b, v.free b, below b))
    ]
    | no p ↦ elim (ℕ_discrete b j) [
      | yes q ↦ absurd (ground (arith, q, only a p, below a))
      | no q ↦ v.unique a b (ground (arith, only a p)) (ground (arith, only a p, only b q))
    ]
  ];
}
  where
    below : (i : ℕ) → (k.proc i).pid < k.nextpid
    below i = elim (Bool-cases (same_state (k.proc i).state unused)) [
      | inl u ↦ ground (arith, v.free i, v.next_pos)
      | inr u ↦ ground (arith, v.live i)
    ]
Allocated-IsValid (failed j lt free e st after only) small v = record {
  next_pos = omega arith;
  free = λ i u. elim (ℕ_discrete i j) [
    | yes p ↦ ground (arith, p)
    | no ne ↦ ground (arith, only i ne, v.free i)
  ];
  live = λ i u. elim (ℕ_discrete i j) [
    | yes p ↦ absurd (ground (arith, p))
    | no ne ↦ ground (arith, only i ne, v.live i)
  ];
  unique = λ a b h e. elim (ℕ_discrete a j) [
    | yes p ↦ absurd (ground (arith, p))
    | no p ↦ elim (ℕ_discrete b j) [
      | yes q ↦ absurd (ground (arith, q))
      | no q ↦ v.unique a b (ground (arith, only a p)) (ground (arith, only a p, only b q))
    ]
  ];
}
Allocated-IsValid (full all e) small v = ground (arith, e)

fork_registers-SamePids : (me np : ℕ) (k : Kernel) → SamePids k (fork_registers me np k)
unfolding fork_registers
fork_registers-SamePids me np k = record {
  next_same = refl;
  pid_same = λ i. ground arith;
  unused_same = λ i e. ground arith;
  used_same = λ i e. ground arith;
}

dup_one-SamePids : (me np fd : ℕ) (k : Kernel) → SamePids k (dup_one me np fd k)
unfolding dup_one
dup_one-SamePids me np fd k = record {
  next_same = ground arith;
  pid_same = λ i. ground arith;
  unused_same = λ i e. ground arith;
  used_same = λ i e. ground arith;
}

fork_files-SamePids : (me np : ℕ) (k : Kernel) → SamePids k (fork_files me np k)
unfolding fork_files
fork_files-SamePids me np k =
    for_below_inv (dup_one me np) (λ _ t. SamePids k t) nofile k
      (λ fd t lt h. SamePids-trans h (dup_one-SamePids me np fd t)) (SamePids-refl k)

fork_cwd-SamePids : (me np : ℕ) (k : Kernel) → SamePids k (fork_cwd me np k)
unfolding fork_cwd
fork_cwd-SamePids me np k = record {
  next_same = ground arith;
  pid_same = λ i. ground arith;
  unused_same = λ i e. ground arith;
  used_same = λ i e. ground arith;
}

fork_into-IsValid :
    (copied : Bool) (me np : ℕ) (k : Kernel)
    → (k.proc np).state ≢ unused
    → IsValid k
    → IsValid (fork_into copied me np k).1
unfolding fork_into fork_start
fork_into-IsValid false me np k live v = freeproc-IsValid np k v
fork_into-IsValid true me np k live v =
    let k1 = fork_registers me np k in
    let k2 = fork_files me np k1 in
    let k3 = fork_cwd me np k2 in
    let before : SamePids k k3 =
      SamePids-trans (fork_registers-SamePids me np k)
        (SamePids-trans (fork_files-SamePids me np k1) (fork_cwd-SamePids me np k2)) in
    SamePids-IsValid
      (SamePids-trans before
        (set-SamePids k3 np _ refl (λ z. cc) (λ z. live (before.unused_same np z))))
      v

-- The pid that a successful `fork` answers is new.
fork-IsValid :
    (forkret page table : ℕ) (copied : Bool) (me : ℕ) (k : Kernel)
    → k.nextpid < 2 ^ 31 - 1
    → IsValid k
    → IsValid (fork forkret page table copied me k).1
unfolding fork
fork-IsValid forkret page table copied me k small v =
    go (allocproc forkret page table k) (allocproc-Allocated forkret page table k)
  where
    go :
        (out : Option ℕ × Kernel)
        → Allocated k out
        → let (o, k') = out in
          IsValid
            (let z : ℤ × Kernel = elim o [
              | none ↦ (negsuc 0, k')
              | some np ↦ fork_into copied me np k'
            ] in
              z).1
    go (none, k') a = Allocated-IsValid a small v
    go (some np, k') (got j lt free first e st pids kl only) =
        let same : np ≡ j = ground arith in
        fork_into-IsValid copied me np k' (λ u. ground arith)
          (Allocated-IsValid {k = k} {out = (some np, k')} (got j lt free first e st pids kl only)
            small v)
    go (some np, k') (failed j lt free e st pids only) = absurd (ground arith)
    go (some np, k') (full all e) = absurd (ground arith)

wait-IsValid :
    (adr : ℕ → ℕ) (to_user copied : Bool) (me : ℕ) (k : Kernel) {r : ℤ} {k' : Kernel}
    → wait adr to_user copied me k ≡ answers r k'
    → IsValid k
    → IsValid k'
unfolding wait
wait-IsValid adr to_user copied me k {k'} e v =
    elim (Option-cases (find_first (is_zombie_child me k) nproc)) [
      | inl out ↦
          subst IsValid
            (let same : k ≡ k' = ground (arith, Option-cases (find_first (is_child me k) nproc)) in
              same)
            v
      | inr (j, found) ↦ elim (Bool-cases (to_user && not copied)) [
        | inl bad ↦ subst IsValid (let same : k ≡ k' = ground arith in same) v
        | inr good ↦
            subst IsValid (let same : freeproc j k ≡ k' = ground arith in same)
              (freeproc-IsValid j k v)
      ]
    ]

wait_sleep-SamePids :
    (adr : ℕ → ℕ) (to_user copied : Bool) (me : ℕ) (k : Kernel) {k' : Kernel}
    → (k.proc me).state ≢ unused
    → wait adr to_user copied me k ≡ waits k'
    → SamePids k k'
unfolding wait sleep_on
wait_sleep-SamePids adr to_user copied me k {k'} live e =
    subst (SamePids k)
      (let same : sleep_on me (adr me) k ≡ k' = ground (
        arith,
        Option-cases (find_first (is_zombie_child me k) nproc),
        Option-cases (find_first (is_child me k) nproc),
      ) in
        same)
      (set-SamePids k me _ refl (λ z. cc) live)

schedule-SamePids : (c i : ℕ) (m : Machine) → SamePids m.kernel (schedule c i m).kernel
unfolding schedule
schedule-SamePids c i m = record {
  next_same = ground arith;
  pid_same = λ j. ground arith;
  unused_same = λ j e. ground arith;
  used_same = λ j e. ground arith;
}

-- A process on a CPU is in use.
on_cpu : {m : Machine} → Inv m → (c me : ℕ) → m.cpu c ≡ some me → (m.kernel.proc me).state ≢ unused
on_cpu inv c me on u = ground (arith, inv.runs c me on)

Step-IsValid :
    {adr : ℕ → ℕ} {m n : Machine}
    → Inv m
    → m.kernel.nextpid < 2 ^ 31 - 1
    → IsValid m.kernel
    → Step adr m n
    → IsValid n.kernel
unfolding unschedule sleep_on yield_cpu
Step-IsValid {m} inv small v (run c i idle lt) = SamePids-IsValid (schedule-SamePids c i m) v
Step-IsValid {m} inv small v (wakes me chan) = SamePids-IsValid (wakeup-SamePids me chan m.kernel) v
Step-IsValid {m} inv small v (kills pid) = SamePids-IsValid (kill-SamePids pid m.kernel) v
Step-IsValid {m} inv small v (set_killed i) = SamePids-IsValid (setkilled-SamePids i m.kernel) v
Step-IsValid {m} inv small v (forks c me forkret page table copied on) =
    fork-IsValid forkret page table copied me m.kernel small v
Step-IsValid {adr} {m} inv small v (reaps c me to_user copied on e) =
    wait-IsValid adr to_user copied me m.kernel e v
Step-IsValid {adr} {m} inv small v (waits_for c me to_user copied on e) =
    SamePids-IsValid (wait_sleep-SamePids adr to_user copied me m.kernel (on_cpu inv c me on) e) v
Step-IsValid {m} inv small v (sleeps c me chan on) =
    SamePids-IsValid (set-SamePids m.kernel me _ refl (λ z. cc) (on_cpu inv c me on)) v
Step-IsValid {m} inv small v (yields c me on) =
    SamePids-IsValid (set-SamePids m.kernel me _ refl (λ z. cc) (on_cpu inv c me on)) v
Step-IsValid {adr} {m} inv small v (exits c me status on e) =
    SamePids-IsValid (exit-SamePids adr me status m.kernel (on_cpu inv c me on) e) v

-- Before each step of the run `nextpid` is below the greatest `int`.
unfoldable pub no_overflow_yet : {adr : ℕ → ℕ} {s m : Machine} → Reach adr s m → Bool
no_overflow_yet here = true
no_overflow_yet (next {t} r st) = no_overflow_yet r && ltb t.kernel.nextpid (2 ^ 31 - 1)

-- From idle CPUs and a table whose pids are unique, every state that is reached before `nextpid`
-- overflows an `int`, which takes more than 2^31 - 2 new processes, has unique pids: a slot in
-- use has a pid between 1 and `nextpid`, an unused slot has pid 0, and no two slots share a pid.
pub unique_pids :
    {adr : ℕ → ℕ} {s m : Machine}
    → ((c : ℕ) → s.cpu c ≡ none)
    → IsValid s.kernel
    → (r : Reach adr s m) → no_overflow_yet r ≡ true
    → IsValid m.kernel
unfolding no_overflow_yet
unique_pids idle v here short = v
unique_pids idle v (next {t} r st) short =
    let (before, now) = both (no_overflow_yet r) t.kernel.nextpid short in
    Step-IsValid (Reach-Inv idle r) now (unique_pids idle v r before) st
  where
    both : (b : Bool) (n : ℕ) → (b && ltb n (2 ^ 31 - 1)) ≡ true → (b ≡ true) × (n < 2 ^ 31 - 1)
    both true n e = (refl, ground (arith, e))
    both false n e = absurd (ground (arith, e))
