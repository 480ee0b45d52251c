-- ===== src/Kernel/Mutex/Exclusion.antt =====
-- Mutual exclusion, and that no wakeup is lost.
use xv6_tp.Base.{ℕ, ◌≡◌, ◌<◌, true, some, ℤ, array_index, arith}
use xv6_tp.Kernel.Mutex.{
  Mtable, max_mutexes, mutex_init, mutex_lock, mutex_unlock, mutex_free, lock_turn,
}
use xv6_tp.Kernel.Mutex.System.{
  asleep, System, after_turn, after_release, start, Step, create, taken, free_slot, store, full,
  lock, retry, unlock, free, kill, Reach, begin, next, IsQuiet, QuietReach, quiet_begin, quiet_next,
}

-- The table agrees with what the processes were told.
abbrev pub IsOwner : System → Type 0
IsOwner s =
    (p i : ℕ) → s.owns p i ≡ true → (0 < p) × ((s.table i).locked ≡ true) × ((s.table i).pid ≡ p)

-- Who sleeps has something to wait for.
abbrev pub HasToWait : System → Type 0
HasToWait s = (p i : ℕ) → s.phase p ≡ asleep i → (s.table i).locked ≡ true

start-IsOwner : IsOwner start
unfolding mutex_init
start-IsOwner = λ p i e. cc

start-HasToWait : HasToWait start
start-HasToWait = λ p i e. cc

module _ (s : System) (p : ℕ) (hp : 0 < p) where
  turn-IsOwner : (i : ℕ) → IsOwner s → IsOwner (after_turn s p i (lock_turn s.table p i))
  unfolding lock_turn
  turn-IsOwner i owner q j o = ground (arith, owner q j)

  unlock-IsOwner : (id : ℤ) → IsOwner s → IsOwner (after_release s p (mutex_unlock s.table p id))
  unfolding mutex_unlock
  unlock-IsOwner id owner q j o = ground (arith, owner q j)

  free-IsOwner : (id : ℤ) → IsOwner s → IsOwner (after_release s p (mutex_free s.table p id))
  unfolding mutex_free
  free-IsOwner id owner q j o = ground (arith, owner q j)

  turn-HasToWait : (i : ℕ) → HasToWait s → HasToWait (after_turn s p i (lock_turn s.table p i))
  unfolding lock_turn
  turn-HasToWait i waits q j w = ground (arith, waits q j)

  unlock-HasToWait :
      (id : ℤ) → HasToWait s → HasToWait (after_release s p (mutex_unlock s.table p id))
  unfolding mutex_unlock
  unlock-HasToWait id waits q j w = ground (arith, waits q j)

  free-HasToWait : (id : ℤ) → HasToWait s → HasToWait (after_release s p (mutex_free s.table p id))
  unfolding mutex_free
  free-HasToWait id waits q j w = ground (arith, waits q j)

mutex_lock-in_range :
    (t : Mtable) (p i : ℕ) (id : ℤ)
    → array_index max_mutexes id ≡ some i
    → mutex_lock t p id ≡ lock_turn t p i
unfolding mutex_lock
mutex_lock-in_range t p i id e = rw (e, mutex_lock)

Step-IsOwner : {s t : System} → IsOwner s → IsQuiet s → Step s t → IsOwner t
Step-IsOwner owner quiet (create p hp u alone) = λ q j o. owner q j o
Step-IsOwner owner quiet (taken p i w lt nz) = λ q j o. owner q j o
Step-IsOwner owner quiet (free_slot p i w lt z) = λ q j o. owner q j o
Step-IsOwner owner quiet (full p w) = λ q j o. owner q j o
Step-IsOwner owner quiet (store p i hp w) = λ q j o. ground (arith, owner q j o, quiet p i w)
Step-IsOwner {s} owner quiet (lock p i id hp u e) =
    rw (mutex_lock-in_range s.table p i id e) (turn-IsOwner s p hp i owner)
Step-IsOwner {s} owner quiet (retry p i hp w) = turn-IsOwner s p hp i owner
Step-IsOwner {s} owner quiet (unlock p id hp u) = unlock-IsOwner s p hp id owner
Step-IsOwner {s} owner quiet (free p id hp u) = free-IsOwner s p hp id owner
Step-IsOwner owner quiet (kill p i w) = λ q j o. owner q j o

Step-HasToWait : {s t : System} → HasToWait s → Step s t → HasToWait t
Step-HasToWait waits (create p hp u alone) = λ q j z. ground (arith, waits q j)
Step-HasToWait waits (taken p i w lt nz) = λ q j z. ground (arith, waits q j)
Step-HasToWait waits (free_slot p i w lt nz) = λ q j z. ground (arith, waits q j)
Step-HasToWait waits (full p w) = λ q j z. ground (arith, waits q j)
Step-HasToWait waits (store p i hp w) = λ q j z. ground (arith, waits q j)
Step-HasToWait {s} waits (lock p i id hp u e) =
    rw (mutex_lock-in_range s.table p i id e) (turn-HasToWait s p hp i waits)
Step-HasToWait {s} waits (retry p i hp w) = turn-HasToWait s p hp i waits
Step-HasToWait {s} waits (unlock p id hp u) = unlock-HasToWait s p hp id waits
Step-HasToWait {s} waits (free p id hp u) = free-HasToWait s p hp id waits
Step-HasToWait waits (kill p i w) = λ q j z. ground (arith, waits q j)

QuietReach-IsOwner : {s : System} → QuietReach s → IsOwner s
QuietReach-IsOwner quiet_begin = start-IsOwner
QuietReach-IsOwner (quiet_next r quiet st) = Step-IsOwner (QuietReach-IsOwner r) quiet st

-- From the table that `mutex_init` makes, whatever the calls of the processes and their order, also
-- between the test and the store of a `mutex_create`: if no slot that a `mutex_create` found free was
-- taken by a lock before that `mutex_create` stored its pid, then two processes that were both told
-- that they hold the same mutex, and did not release it since, are the same process.
pub mutual_exclusion :
    {s : System} → QuietReach s → (p q i : ℕ) → s.owns p i ≡ true → s.owns q i ≡ true → p ≡ q
mutual_exclusion r p q i hp hq =
    ground (arith, QuietReach-IsOwner r p i hp, QuietReach-IsOwner r q i hq)

-- From the table that `mutex_init` makes, whatever the calls of the processes and their order, a
-- process that sleeps in `mutex_lock` waits for a mutex that is locked: an unlock leaves no sleeper.
pub no_lost_wakeup :
    {s : System} → Reach s → (p i : ℕ) → s.phase p ≡ asleep i → (s.table i).locked ≡ true
no_lost_wakeup begin = start-HasToWait
no_lost_wakeup (next r st) = Step-HasToWait (no_lost_wakeup r) st
