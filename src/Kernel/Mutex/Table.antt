-- ===== src/Kernel/Mutex/Table.antt =====
-- What each call of kernel/mutex.c does to the table, on every branch.
use xv6_tp.Base.{
  ℕ, ◌≡◌, ◌≢◌, ◌<◌, inl, inr, false, Option, none, some, Option-cases, arith, ℤ, pos, negsuc,
  Bool-cases, ltb, ◌&&◌, find_first, find_first_sound, find_first-none, IsFirst, ◌==◌, refl, update,
}
use xv6_tp.Kernel.Mutex.{Mtable, max_mutexes, mutex_create, mutex_unlock}

-- What `mutex_create` may answer: the first free slot, now its caller's, or a full table.
pub data Created (t : Mtable) (pid : ℕ) (out : Mtable × ℤ) : Type 0 where
  slot :
      (i : ℕ)
      → i < max_mutexes
      → (t i).pid ≡ 0
      → ((k : ℕ) → k < i → (t k).pid ≢ 0)
      → out ≡ (update t i (record { locked = (t i).locked; pid = pid }), pos i)
      → Created t pid out
  full : ((k : ℕ) → k < max_mutexes → (t k).pid ≢ 0) → out ≡ (t, negsuc 0) → Created t pid out

-- `mutex_create` hands its caller the first slot whose pid is 0 and changes nothing else, or
-- returns -1 and changes nothing, exactly when all 64 slots are taken.
pub mutex_create-Created : (t : Mtable) (pid : ℕ) → Created t pid (mutex_create t pid)
unfolding mutex_create
mutex_create-Created t pid = elim (Option-cases (find_first (λ i. (t i).pid == 0) max_mutexes)) [
  | inl e ↦
      full (λ k h. ground (arith, find_first-none (λ i. (t i).pid == 0) max_mutexes e k h))
        (ground arith)
  | inr (i, e) ↦
      let r : IsFirst (λ i. (t i).pid == 0) 0 max_mutexes i = find_first_sound _ max_mutexes i e in
      slot i r.below (ground (arith, r.passes)) (λ k h. grind (arith, r.before)) (ground arith)
]

-- What `mutex_unlock` and `mutex_free` may do for process `pid`.
pub data Released (t : Mtable) (pid : ℕ) (id : ℤ) (out : Mtable × ℤ × Option ℕ) : Type 0 where
  released :
      (i : ℕ)
      → id ≡ pos i
      → i < max_mutexes
      → (t i).pid ≡ pid
      → out ≡ (update t i (record { locked = false; pid = 0 }), pos 0, some i)
      → Released t pid id out
  denied :
      ((i : ℕ) → id ≡ pos i → i < max_mutexes → (t i).pid ≢ pid)
      → out ≡ (t, negsuc 0, none)
      → Released t pid id out

-- `mutex_unlock` unlocks a mutex, clears its pid and wakes its sleepers if the id is in range and
-- the caller is the process recorded in it; otherwise it returns -1 and changes nothing.
pub mutex_unlock-Released :
    (t : Mtable) (pid : ℕ) (id : ℤ) → Released t pid id (mutex_unlock t pid id)
unfolding mutex_unlock
mutex_unlock-Released t pid (negsuc k) = denied (λ i e. cc) refl
mutex_unlock-Released t pid (pos i) = elim (Bool-cases (ltb i max_mutexes && (t i).pid == pid)) [
  | inl hit ↦ released i refl (ground arith) (ground arith) (ground arith)
  | inr miss ↦ denied (λ j e lt. ground arith) (ground arith)
]
