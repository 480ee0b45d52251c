-- ===== src/Kernel/Proc/Kill.antt =====
-- `kill`: the victim, and what happens at pid 0.
use native.Mathlib.Decide.{ℕ_discrete}
use xv6_tp.Base.{
  ℕ, ◌≡◌, ◌≢◌, ◌<◌, true, Option, some, Option-cases, inl, inr, ◌==◌, if◌then◌else◌, arith, ℤ,
  negsuc, pos, find_first, find_first_sound, find_first-none, find_first-reaches, IsFirst,
}
use xv6_tp.Kernel.Proc.{unused, sleeping, runnable, nproc, Kernel, is_state, allocproc}
use xv6_tp.Kernel.Proc.Slots.{Only, Allocated, got, failed, full, allocproc-Allocated}
use xv6_tp.Kernel.Proc.Pids.{IsValid}
use xv6_tp.Kernel.Proc.Life.{kill}

-- What `kill` may come to.
pub data Killed (pid : ℕ) (k : Kernel) (out : ℤ × Kernel) : Type 0 where
  victim :
      (i : ℕ)
      → i < nproc
      → (k.proc i).pid ≡ pid
      → out.0 ≡ pos 0
      → out.1.proc i ≡ record (k.proc i) {
        killed = true;
        state = if is_state sleeping k i then runnable else (k.proc i).state;
      }
      → Only i k out.1
      → Killed pid k out
  nobody : ((i : ℕ) → i < nproc → (k.proc i).pid ≢ pid) → out ≡ (negsuc 0, k) → Killed pid k out

-- `kill` marks one process with the pid as killed, makes it runnable if it sleeps, and changes no
-- other process; it answers -1 and changes nothing exactly when no slot has the pid.
pub kill-Killed : (pid : ℕ) (k : Kernel) → Killed pid k (kill pid k)
unfolding kill
kill-Killed pid k = elim (Option-cases (find_first (λ i. (k.proc i).pid == pid) nproc)) [
  | inl out ↦
      nobody (λ i h. ground (arith, find_first-none (λ j. (k.proc j).pid == pid) nproc out i h))
        (ground arith)
  | inr (i, found) ↦
      let r : IsFirst (λ j. (k.proc j).pid == pid) 0 nproc i = find_first_sound _ nproc i found in
      victim i r.below (ground (arith, r.passes)) (ground arith) (ground arith)
        (λ j ne. ground arith)
]

-- The first unused slot.
pub record FirstUnused (k : Kernel) (i : ℕ) : Type 0 where
  pub inside : i < nproc
  pub free : (k.proc i).state ≡ unused
  pub lower : (j : ℕ) → j < i → (k.proc j).state ≢ unused

module _ {k : Kernel} {i : ℕ} (v : IsValid k) (f : FirstUnused k i) where
  kill_zero-hits : find_first (λ j. (k.proc j).pid == 0) nproc ≡ some i
  kill_zero-hits =
      find_first-reaches (λ j. (k.proc j).pid == 0) nproc i f.inside
        (ground (arith, v.free i, f.free)) (λ j h. ground (arith, v.live j (f.lower j h)))

  kill_zero-state :
      ((kill 0 k).0 ≡ pos 0)
      × (((kill 0 k).1.proc i).killed ≡ true)
      × (((kill 0 k).1.proc i).state ≡ unused)
      × Only i k (kill 0 k).1
  unfolding kill
  kill_zero-state = (
    ground (arith, kill_zero-hits),
    ground (arith, kill_zero-hits),
    ground (arith, kill_zero-hits, f.free),
    λ j ne. ground (arith, kill_zero-hits),
  )

  -- `kill(0)` succeeds while the table has room, though no process has pid 0: it marks the first
  -- unused slot as killed, and the next process that `allocproc` makes, in that slot, is born killed.
  pub kill_zero-allocproc :
      (forkret page table : ℕ) {j : ℕ}
      → (allocproc forkret page table (kill 0 k).1).0 ≡ some j
      → ((kill 0 k).0 ≡ pos 0)
        × (j ≡ i)
        × (((allocproc forkret page table (kill 0 k).1).1.proc j).killed ≡ true)
  kill_zero-allocproc forkret page table {j} e =
      go (allocproc forkret page table (kill 0 k).1) e
        (allocproc-Allocated forkret page table (kill 0 k).1)
    where
      go :
          (out : Option ℕ × Kernel)
          → out.0 ≡ some j
          → Allocated (kill 0 k).1 out
          → ((kill 0 k).0 ≡ pos 0) × (j ≡ i) × ((out.1.proc j).killed ≡ true)
      go out e (got n lt free first e' st pids kl only) =
          let (ok, dead, u, rest) = kill_zero-state in
          let there : n ≡ j = ground arith in
          let same : n ≡ i = elim (ℕ_discrete n i) [
            | yes p ↦ p
            | no ne ↦ absurd (other n lt free first ne)
          ] in
          (ok, ground arith, ground arith)
        where
          other :
              (n : ℕ)
              → n < nproc
              → ((kill 0 k).1.proc n).state ≡ unused
              → ((m : ℕ) → m < n → ((kill 0 k).1.proc m).state ≢ unused)
              → n ≢ i
              → ⊥
          other n lt free first ne =
              let (ok, dead, u, rest) = kill_zero-state in
              ground (arith, rest n ne, f.lower n, first i)
      go out e (failed n lt free e' st after only) = absurd (ground arith)
      go out e (full all e') = absurd (ground arith)
