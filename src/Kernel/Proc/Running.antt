-- ===== src/Kernel/Proc/Running.antt =====
-- Which calls leave a running process running, and that no two CPUs run the same process.
use native.Mathlib.Decide.{ℕ_discrete}
use xv6_tp.Base.{
  ℕ, ◌≡◌, ◌≢◌, Bool, Option, none, some, Option-cases, inl, inr, arith, ap, ℤ, negsuc, ◌∙◌, ◌∙◌,
  for_below, for_below_inv, find_first, find_first_sound, IsFirst,
}
use xv6_tp.Kernel.Proc.{
  unused, running, nproc, nofile, Proc, Kernel, log_event, freeproc, allocproc, begin_op, end_op,
}
use xv6_tp.Kernel.Proc.Slots.{
  Allocated, got, failed, full, allocproc-Allocated, fork_into-Only, close_one-Only,
}
use xv6_tp.Kernel.Proc.Sched.{wakeup, sleep_on}
use xv6_tp.Kernel.Proc.Life.{
  kill, fork, fork_into, exit, close_one, put_cwd, reparent, reparent_one, wait, is_zombie_child,
  answers, waits, is_child,
}

-- Every process but `me` that runs in `k` runs in `k'`.
abbrev pub KeepsRunning : ℕ → Kernel → Kernel → Type 0
KeepsRunning me k k' = (i : ℕ) → i ≢ me → (k.proc i).state ≡ running → (k'.proc i).state ≡ running

-- Every process that runs in `k` runs in `k'`.
abbrev pub KeepsAll : Kernel → Kernel → Type 0
KeepsAll k k' = (i : ℕ) → (k.proc i).state ≡ running → (k'.proc i).state ≡ running

pub wakeup-KeepsAll : (me chan : ℕ) (k : Kernel) → KeepsAll k (wakeup me chan k)
unfolding wakeup
wakeup-KeepsAll me chan k i r = ground arith

pub kill-KeepsAll : (pid : ℕ) (k : Kernel) → KeepsAll k (kill pid k).1
unfolding kill
kill-KeepsAll pid k i r = ground arith

KeepsRunning-wakeup : (me chan : ℕ) (k : Kernel) → KeepsRunning me k (wakeup me chan k)
unfolding wakeup
KeepsRunning-wakeup me chan k i ne r = ground arith

reparent_one-keeps :
    (me : ℕ) (adr : ℕ → ℕ) (j : ℕ) (t : Kernel) (i : ℕ)
    → (t.proc i).state ≡ running
    → ((reparent_one me adr j t).proc i).state ≡ running
unfolding reparent_one wakeup
reparent_one-keeps me adr j t i r = ground arith

KeepsRunning-reparent : (me : ℕ) (adr : ℕ → ℕ) (k : Kernel) → KeepsRunning me k (reparent me adr k)
unfolding reparent
KeepsRunning-reparent me adr k =
    for_below_inv (reparent_one me adr) (λ _ t. KeepsRunning me k t) nproc k
      (λ j t lt h i ne r. reparent_one-keeps me adr j t i (h i ne r)) (λ i ne r. r)

running≢unused : running ≢ unused
running≢unused e = ground arith

Allocated-keeps :
    {k : Kernel} {out : Option ℕ × Kernel}
    → Allocated k out
    → (i : ℕ) → (k.proc i).state ≡ running
    → (out.1.proc i).state ≡ running
Allocated-keeps (got j lt free first e st pids kl only) i r = elim (ℕ_discrete i j) [
  | yes p ↦ absurd (ground (arith, p))
  | no np ↦ ground (arith, only i np)
]
Allocated-keeps (failed j lt free e st pids only) i r = elim (ℕ_discrete i j) [
  | yes p ↦ absurd (ground (arith, p))
  | no np ↦ ground (arith, only i np)
]
Allocated-keeps (full all e) i r = ground arith

pub fork-keeps :
    (forkret page table : ℕ) (copied : Bool) (me : ℕ) (k : Kernel) (i : ℕ)
    → (k.proc i).state ≡ running
    → ((fork forkret page table copied me k).1.proc i).state ≡ running
unfolding fork
fork-keeps forkret page table copied me k i r =
    go (allocproc forkret page table k) (allocproc-Allocated forkret page table k)
  where
    go :
        (out : Option ℕ × Kernel)
        → Allocated k out
        → let (o, k') = out in
          ((let z : ℤ × Kernel = elim o [
            | none ↦ (negsuc 0, k')
            | some np ↦ fork_into copied me np k'
          ] in
              z).1.proc
            i).state
          ≡ running
    go (none, k') a = Allocated-keeps a i r
    go (some np, k') (got j lt free first e st pids kl only) =
        let same : np ≡ j = ground arith in
        elim (ℕ_discrete i np) [
          | yes p ↦ absurd (ground (arith, p))
          | no ne ↦ ground (arith, fork_into-Only copied me np k' i ne, only i)
        ]
    go (some np, k') (failed j lt free e st pids only) = absurd (ground arith)
    go (some np, k') (full all e) = absurd (ground arith)

-- The other direction of a call that ends the caller's turn.
log_end-keeps :
    (me : ℕ) (k : Kernel) → KeepsRunning me k (log_event end_op (put_cwd me (log_event begin_op k)))
unfolding put_cwd
log_end-keeps me k i ne r = ground arith

close_files-keeps : (me : ℕ) (k : Kernel) → KeepsRunning me k (for_below (close_one me) nofile k)
close_files-keeps me k =
    for_below_inv (close_one me) (λ _ t. KeepsRunning me k t) nofile k
      (λ fd t lt h i ne r. ap (λ (p : Proc). p.state) (close_one-Only me fd t i ne) ∙ h i ne r)
      (λ i ne r. r)

pub exit-keeps :
    (adr : ℕ → ℕ) (me : ℕ) (status : ℤ) (k : Kernel) {k' : Kernel}
    → exit adr me status k ≡ some k'
    → KeepsRunning me k k'
unfolding exit
exit-keeps adr me status k {k'} e i ne r =
    let k1 = for_below (close_one me) nofile k in
    let k2 = log_event end_op (put_cwd me (log_event begin_op k1)) in
    let k3 = reparent me adr k2 in
    let r3 : (k3.proc i).state ≡ running =
      KeepsRunning-reparent me adr k2 i ne
        (log_end-keeps me k1 i ne (close_files-keeps me k i ne r)) in
    let chan : ℕ = elim (k3.proc me).parent [ none ↦ 0 | some q ↦ adr q ] in
    ground (arith, KeepsRunning-wakeup me chan k3 i ne r3)

pub wait-keeps :
    (adr : ℕ → ℕ) (to_user copied : Bool) (me : ℕ) (k : Kernel) {r : ℤ} {k' : Kernel}
    → wait adr to_user copied me k ≡ answers r k'
    → (i : ℕ) → (k.proc i).state ≡ running
    → (k'.proc i).state ≡ running
unfolding wait freeproc
wait-keeps adr to_user copied me k e i run =
    elim (Option-cases (find_first (is_zombie_child me k) nproc)) [
      | inl out ↦ ground (arith, Option-cases (find_first (is_child me k) nproc))
      | inr (j, found) ↦
          let f : IsFirst (is_zombie_child me k) 0 nproc j = find_first_sound _ nproc j found in
          ground (arith, f.passes)
    ]

pub wait_sleep-keeps :
    (adr : ℕ → ℕ) (to_user copied : Bool) (me : ℕ) (k : Kernel) {k' : Kernel}
    → wait adr to_user copied me k ≡ waits k'
    → KeepsRunning me k k'
unfolding wait sleep_on
wait_sleep-keeps adr to_user copied me k e i ne run = ground (
  arith,
  Option-cases (find_first (is_zombie_child me k) nproc),
  Option-cases (find_first (is_child me k) nproc),
)
