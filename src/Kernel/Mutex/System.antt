-- ===== src/Kernel/Mutex/System.antt =====
-- The processes that call kernel/mutex.c, as interleaved atomic steps. Each process is in user
-- mode, in the loop of `mutex_create`, asleep on a mutex, or woken and about to test `m->locked`
-- again. `mutex_create` holds `mtable.lock` and not the locks of the mutexes, which the other calls
-- hold: its test of a pid and its store of one are steps of their own, between which others go on.
use xv6_tp.Base.{
  ℕ, ◌+◌, ◌≡◌, ◌≢◌, ◌<◌, Bool, true, false, Option, none, some, ◌==◌, if◌then◌else◌, ℤ, update,
  array_index,
}
use xv6_tp.Kernel.Mutex.{
  Mtable, max_mutexes, mutex_init, create_at, mutex_lock, mutex_unlock, mutex_free, Answer, returns,
  sleeps, lock_turn,
}

pub data Phase : Type 0 where
  user : Phase
  looking : ℕ → Phase
  taking : ℕ → Phase
  asleep : ℕ → Phase
  woken : ℕ → Phase

-- `owns p i` holds from the return of a successful lock of mutex `i` by process `p` to the return
-- of its unlock or free. It is what the processes have been told, and no field of the kernel.
pub record System : Type 0 where
  pub table : Mtable
  pub phase : ℕ → Phase
  pub owns : ℕ → ℕ → Bool

-- `wakeup(m)`: every process asleep on the mutex becomes runnable.
abbrev pub wake : Option ℕ → (ℕ → Phase) → ℕ → Phase
wake none ph p = ph p
wake (some i) ph p = elim (ph p) [
  | user ↦ user
  | looking j ↦ looking j
  | taking j ↦ taking j
  | asleep j ↦ if j == i then woken j else asleep j
  | woken j ↦ woken j
]

abbrev pub own : (ℕ → ℕ → Bool) → ℕ → ℕ → Bool → ℕ → ℕ → Bool
own o p i b = update o p (update (o p) i b)

-- What follows a turn of the lock loop on mutex `i`.
abbrev pub after_turn : System → ℕ → ℕ → Mtable × Answer → System
after_turn s p i (t, sleeps) = record s { table = t; phase = update s.phase p (asleep i) }
after_turn s p i (t, returns r) = record {
  table = t;
  phase = update s.phase p user;
  owns = own s.owns p i true;
}

abbrev pub after_release : System → ℕ → Mtable × ℤ × Option ℕ → System
after_release s p (t, r, none) = record s { table = t }
after_release s p (t, r, some i) = record {
  table = t;
  phase = wake (some i) s.phase;
  owns = own s.owns p i false;
}

abbrev pub start : System
start = record { table = mutex_init; phase = λ _. user; owns = λ _ _. false }

abbrev pub go_on : System → ℕ → Phase → System
go_on s p ph = record s { phase = update s.phase p ph }

-- A process in user mode makes a call with any argument; a woken one goes on in `mutex_lock`.
-- `mutex_create` starts when no other process has `mtable.lock`.
-- `kill` (kernel/proc.c) makes a sleeper runnable whatever it sleeps on.
-- Process ids are at least 1. A lock call with an id out of range returns -1 and changes nothing.
pub data Step (s : System) : System → Type 0 where
  create :
      (p : ℕ)
      → 0 < p
      → s.phase p ≡ user
      → ((q j : ℕ) → (s.phase q ≢ looking j) × (s.phase q ≢ taking j))
      → Step s (go_on s p (looking 0))
  taken :
      (p i : ℕ)
      → s.phase p ≡ looking i
      → i < max_mutexes
      → (s.table i).pid ≢ 0
      → Step s (go_on s p (looking (i + 1)))
  free_slot :
      (p i : ℕ)
      → s.phase p ≡ looking i
      → i < max_mutexes
      → (s.table i).pid ≡ 0
      → Step s (go_on s p (taking i))
  store :
      (p i : ℕ)
      → 0 < p
      → s.phase p ≡ taking i
      → Step s (go_on (record s { table = create_at i p s.table }) p user)
  full : (p : ℕ) → s.phase p ≡ looking max_mutexes → Step s (go_on s p user)
  lock :
      (p i : ℕ) (id : ℤ)
      → 0 < p
      → s.phase p ≡ user
      → array_index max_mutexes id ≡ some i
      → Step s (after_turn s p i (mutex_lock s.table p id))
  retry :
      (p i : ℕ) → 0 < p → s.phase p ≡ woken i → Step s (after_turn s p i (lock_turn s.table p i))
  unlock :
      (p : ℕ) (id : ℤ)
      → 0 < p
      → s.phase p ≡ user
      → Step s (after_release s p (mutex_unlock s.table p id))
  free :
      (p : ℕ) (id : ℤ)
      → 0 < p
      → s.phase p ≡ user
      → Step s (after_release s p (mutex_free s.table p id))
  kill : (p i : ℕ) → s.phase p ≡ asleep i → Step s (record s { phase = update s.phase p (woken i) })

pub data Reach : System → Type 0 where
  begin : Reach start
  next : {s t : System} → Reach s → Step s t → Reach t

-- A slot that `mutex_create` found free and has not taken yet is free.
abbrev pub IsQuiet : System → Type 0
IsQuiet s = (p i : ℕ) → s.phase p ≡ taking i → (s.table i).pid ≡ 0

-- Runs of quiet states, up to the last.
pub data QuietReach : System → Type 0 where
  quiet_begin : QuietReach start
  quiet_next : {s t : System} → QuietReach s → IsQuiet s → Step s t → QuietReach t
