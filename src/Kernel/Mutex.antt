-- ===== src/Kernel/Mutex.antt =====
-- kernel/mutex.c and kernel/mutex.h: the table of user-level mutexes.
-- A critical section of a mutex's own spinlock is one atomic step; one of `mtable.lock` is not.
pub mod Table
pub mod System
pub mod Exclusion
pub mod Reuse
mod Tests
use xv6_tp.Base.{
  ℕ, ◌≡◌, Bool, true, false, not, ◌&&◌, Option, none, some, ◌==◌, if◌then◌else◌, ℤ, pos, negsuc,
  update, find_first, array_index,
}

-- `struct mutex`, less its spinlock. `pid` 0 marks a free slot.
pub record Mutex : Type 0 where
  pub locked : Bool
  pub pid : ℕ

abbrev pub max_mutexes : ℕ
max_mutexes = 64

-- `mtable.mutexes`: only positions below `max_mutexes` are read or written.
abbrev pub Mtable : Type 0
Mtable = ℕ → Mutex

-- A process that sleeps goes back to its loop when it is woken.
pub data Answer : Type 0 where
  returns : ℤ → Answer
  sleeps : Answer

pub mutex_init : Mtable
mutex_init i = record { locked = false; pid = 0 }

-- `mtable.mutexes[i].pid = myproc()->pid`
abbrev pub create_at : (i pid : ℕ) → Mtable → Mtable
create_at i pid t = update t i (record (t i) { pid = pid })

-- `mutex_create` when no other call runs; `System` has its steps between those of others.
pub mutex_create : Mtable → ℕ → Mtable × ℤ
mutex_create t pid = elim (find_first (λ i. (t i).pid == 0) max_mutexes) [
  | some i ↦ (create_at i pid t, pos i)
  | none ↦ (t, negsuc 0)
]

-- One turn of `while(m->locked) sleep(m, &m->lk)`, with what follows the loop.
pub lock_turn : Mtable → ℕ → ℕ → Mtable × Answer
lock_turn t pid i =
    if (t i).locked
    then (t, sleeps)
    else (update t i (record { locked = true; pid = pid }), returns (pos 0))

pub mutex_lock : Mtable → ℕ → ℤ → Mtable × Answer
mutex_lock t pid id = elim (array_index max_mutexes id) [
  | none ↦ (t, returns (negsuc 0))
  | some i ↦ lock_turn t pid i
]

-- The third part is the mutex whose sleepers `wakeup` wakes.
pub mutex_unlock : Mtable → ℕ → ℤ → Mtable × ℤ × Option ℕ
mutex_unlock t pid id = elim (array_index max_mutexes id) [
  | none ↦ (t, negsuc 0, none)
  | some i ↦
      if not ((t i).pid == pid)
      then (t, negsuc 0, none)
      else (update t i (record { locked = false; pid = 0 }), pos 0, some i)
]

pub mutex_free : Mtable → ℕ → ℤ → Mtable × ℤ × Option ℕ
mutex_free t pid id = elim (array_index max_mutexes id) [
  | none ↦ (t, negsuc 0, none)
  | some i ↦
      if not ((t i).pid == pid)
      then (t, negsuc 0, none)
      else (update t i (record { locked = false; pid = 0 }), pos 0, some i)
]
