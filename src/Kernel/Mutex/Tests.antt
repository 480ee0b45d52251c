-- ===== src/Kernel/Mutex/Tests.antt =====
-- The theorems at a table of two mutexes and three processes.
use xv6_tp.Base.{ℕ, ◌≡◌, true, false, pos, update, arith, refl}
use xv6_tp.Kernel.Mutex.{
  Mtable, mutex_init, create_at, mutex_create, mutex_lock, mutex_unlock, lock_turn,
}
use xv6_tp.Kernel.Mutex.Reuse.{create_after_unlock}
use xv6_tp.Kernel.Mutex.Exclusion.{mutual_exclusion, no_lost_wakeup}
use xv6_tp.Kernel.Mutex.System.{
  System, user, looking, taking, after_turn, after_release, go_on, start, create, free_slot, store,
  lock, unlock, Reach, begin, next, QuietReach, quiet_begin, quiet_next,
}

-- Process 1 holds mutex 0, process 2 has created mutex 1.
abbrev two_mutexes : Mtable
two_mutexes =
    update (update mutex_init 0 (record { locked = true; pid = 1 })) 1
      (record { locked = false; pid = 2 })

-- Process 1 locks mutex 0, and process 2 then goes to sleep on it.
abbrev contended : System
contended =
    let s = after_turn start 1 0 (mutex_lock start.table 1 (pos 0)) in
    after_turn s 2 0 (mutex_lock s.table 2 (pos 0))

contended-Reach : Reach contended
unfolding mutex_lock lock_turn mutex_init
contended-Reach =
    next (next begin (lock 1 0 (pos 0) (omega arith) refl refl))
      (lock 2 0 (pos 0) (omega arith) refl refl)

contended-QuietReach : QuietReach contended
unfolding mutex_lock lock_turn mutex_init
contended-QuietReach =
    quiet_next (quiet_next quiet_begin (λ p i e. refl) (lock 1 0 (pos 0) (omega arith) refl refl))
      (λ p i e. absurd (ground (arith, e))) (lock 2 0 (pos 0) (omega arith) refl refl)

mutual_exclusion_example : ◌≡◌ {A = ℕ} 1 1
unfolding mutex_lock lock_turn mutex_init
mutual_exclusion_example = mutual_exclusion contended-QuietReach 1 1 0 refl refl

-- Without that, two processes hold a mutex: process 1 finds slot 0 free, process 2 locks it,
-- process 1 stores its pid and unlocks it, and process 3 locks it.
abbrev found : System
found = go_on (go_on start 1 (looking 0)) 1 (taking 0)

abbrev overwritten : System
overwritten =
    let s = after_turn found 2 0 (mutex_lock found.table 2 (pos 0)) in
    go_on (record s { table = create_at 0 1 s.table }) 1 user

abbrev raced : System
raced =
    let s = after_release overwritten 1 (mutex_unlock overwritten.table 1 (pos 0)) in
    after_turn s 3 0 (mutex_lock s.table 3 (pos 0))

raced-Reach : Reach raced
unfolding mutex_lock mutex_unlock lock_turn mutex_init
raced-Reach =
    next
      (next
        (next
          (next
            (next (next begin (create 1 (omega arith) refl (λ q j. ((λ e. cc), (λ e. cc)))))
              (free_slot 1 0 refl (omega arith) refl))
            (lock 2 0 (pos 0) (omega arith) refl refl))
          (store 1 0 (omega arith) refl))
        (unlock 1 (pos 0) (omega arith) refl))
      (lock 3 0 (pos 0) (omega arith) refl refl)

two_owners : (raced.owns 2 0 ≡ true) × (raced.owns 3 0 ≡ true)
unfolding mutex_lock mutex_unlock lock_turn mutex_init
two_owners = (refl, refl)

no_lost_wakeup_example : (contended.table 0).locked ≡ true
unfolding mutex_lock lock_turn mutex_init
no_lost_wakeup_example = no_lost_wakeup contended-Reach 2 0 refl

create_after_unlock_example : (mutex_create (mutex_unlock two_mutexes 1 (pos 0)).0 3).1 ≡ pos 0
unfolding mutex_init
create_after_unlock_example =
    create_after_unlock two_mutexes 1 3 0 (omega arith) refl (λ k h. absurd (omega arith))
