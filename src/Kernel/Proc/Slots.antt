-- ===== src/Kernel/Proc/Slots.antt =====
-- Which slots of the table a call of kernel/proc.c touches.
use xv6_tp.Base.{
  ℕ, ◌≡◌, ◌≢◌, ◌<◌, Bool, true, false, Option, none, some, Option-cases, inl, inr, ◌==◌, arith,
  refl, ◌∙◌, Bool-cases, find_first-none, for_below_inv, find_first, find_first_sound, IsFirst, ◌+◌,
  ◌%◌, ◌^◌,
}
use xv6_tp.Kernel.Proc.{
  ProcState, unused, used, same_state, nproc, nofile, Kernel, is_state, freeproc, allocproc,
  allocproc_at, allocpid,
}
use xv6_tp.Kernel.Proc.Life.{
  fork_into, fork_registers, fork_files, fork_cwd, fork_start, dup_one, close_one,
}

-- Nothing but slot `j` differs.
abbrev pub Only : ℕ → Kernel → Kernel → Type 0
Only j k k' = (i : ℕ) → i ≢ j → k'.proc i ≡ k.proc i

pub close_one-Only : (me fd : ℕ) (k : Kernel) → Only me k (close_one me fd k)
unfolding close_one
close_one-Only me fd k i ne = ground arith

dup_one-Only : (me np fd : ℕ) (k : Kernel) → Only np k (dup_one me np fd k)
unfolding dup_one
dup_one-Only me np fd k i ne = ground arith

fork_registers-Only : (me np : ℕ) (k : Kernel) → Only np k (fork_registers me np k)
unfolding fork_registers
fork_registers-Only me np k i ne = ground arith

fork_files-Only : (me np : ℕ) (k : Kernel) → Only np k (fork_files me np k)
unfolding fork_files
fork_files-Only me np k =
    for_below_inv (dup_one me np) (λ _ t. Only np k t) nofile k
      (λ fd t lt h i ne. dup_one-Only me np fd t i ne ∙ h i ne) (λ i ne. refl)

fork_cwd-Only : (me np : ℕ) (k : Kernel) → Only np k (fork_cwd me np k)
unfolding fork_cwd
fork_cwd-Only me np k i ne = ground arith

fork_start-Only : (me np : ℕ) (k : Kernel) → Only np k (fork_start me np k)
unfolding fork_start
fork_start-Only me np k i ne = ground arith

pub fork_into-Only :
    (copied : Bool) (me np : ℕ) (k : Kernel) → Only np k (fork_into copied me np k).1
unfolding fork_into freeproc
fork_into-Only copied me np k i ne =
    let k1 = fork_registers me np k in
    let k2 = fork_files me np k1 in
    let k3 = fork_cwd me np k2 in
    ground (
      arith,
      fork_start-Only me np k3 i ne,
      fork_cwd-Only me np k2 i ne,
      fork_files-Only me np k1 i ne,
      fork_registers-Only me np k i ne,
    )

-- `allocproc` answers the first unused slot, now used, or none; it touches no other slot.
pub data Allocated (k : Kernel) (out : Option ℕ × Kernel) : Type 0 where
  got :
      (i : ℕ)
      → i < nproc
      → (k.proc i).state ≡ unused
      → ((j : ℕ) → j < i → (k.proc j).state ≢ unused)
      → out.0 ≡ some i
      → (out.1.proc i).state ≡ used
      → ((out.1.proc i).pid ≡ k.nextpid) × (out.1.nextpid ≡ (k.nextpid + 1) % 2 ^ 32)
      → (out.1.proc i).killed ≡ (k.proc i).killed
      → Only i k out.1
      → Allocated k out
  failed :
      (i : ℕ)
      → i < nproc
      → (k.proc i).state ≡ unused
      → out.0 ≡ none
      → ((out.1.proc i).state ≡ unused) × ((out.1.proc i).pid ≡ 0)
      → out.1.nextpid ≡ (k.nextpid + 1) % 2 ^ 32
      → Only i k out.1
      → Allocated k out
  full : ((j : ℕ) → j < nproc → (k.proc j).state ≢ unused) → out ≡ (none, k) → Allocated k out

pub unused_iff : (s : ProcState) → same_state s unused ≡ true → s ≡ unused
unused_iff s e = ground arith

pub unused_not : (s : ProcState) → same_state s unused ≡ false → s ≢ unused
unused_not s e f = ground arith

-- `allocproc` takes the first unused slot and the next pid and changes no other slot. If a page or
-- the page table is missing it frees the slot again; the pid is then spent all the same.
pub allocproc-Allocated :
    (forkret page table : ℕ) (k : Kernel) → Allocated k (allocproc forkret page table k)
unfolding allocproc allocproc_at allocpid freeproc
allocproc-Allocated forkret page table k =
    elim (Option-cases (find_first (is_state unused k) nproc)) [
      | inl out ↦
          full (λ j h. unused_not _ (find_first-none (is_state unused k) nproc out j h))
            (ground arith)
      | inr (i, found) ↦
          let r : IsFirst (is_state unused k) 0 nproc i = find_first_sound _ nproc i found in
          let free : (k.proc i).state ≡ unused = unused_iff _ r.passes in
          elim (Bool-cases (page == 0)) [
            | inl no_page ↦
                failed i r.below free (ground arith) (ground arith, ground arith) (ground arith)
                  (λ j ne. ground arith)
            | inr has_page ↦ elim (Bool-cases (table == 0)) [
              | inl no_table ↦
                  failed i r.below free (ground arith) (ground arith, ground arith) (ground arith)
                    (λ j ne. ground arith)
              | inr has_table ↦
                  got i r.below free (λ j h. unused_not _ (r.before j (omega arith) h))
                    (ground arith) (ground arith) (ground arith, ground arith) (ground arith)
                    (λ j ne. ground arith)
            ]
          ]
    ]
