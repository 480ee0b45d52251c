-- ===== src/Kernel/Mutex/Reuse.antt =====
-- What becomes of a mutex's slot when it is unlocked.
use xv6_tp.Base.{ℕ, ◌≡◌, ◌≢◌, ◌<◌, arith, ℤ, pos, find_first-reaches, ◌==◌, ap, update, false}
use xv6_tp.Kernel.Mutex.{Mtable, max_mutexes, mutex_create, mutex_unlock}

create-of_first :
    (t : Mtable) (q i : ℕ)
    → i < max_mutexes
    → (t i).pid ≡ 0
    → ((k : ℕ) → k < i → (t k).pid ≢ 0)
    → mutex_create t q ≡ (update t i (record { locked = (t i).locked; pid = q }), pos i)
unfolding mutex_create
create-of_first t q i lt z taken = ground (
  arith,
  find_first-reaches (λ k. (t k).pid == 0) max_mutexes i lt (ground arith)
      (λ k h. ground (arith, taken k h)),
)

unlock-hit :
    (t : Mtable) (p i : ℕ)
    → i < max_mutexes
    → (t i).pid ≡ p
    → (mutex_unlock t p (pos i)).0 ≡ update t i (record { locked = false; pid = 0 })
unfolding mutex_unlock
unlock-hit t p i lt e = ground arith

-- Unlocking a mutex gives its slot back: if process `p` unlocks mutex `i` and every lower slot is
-- taken, the next `mutex_create`, by any process, answers `i`, though `p` never freed it.
pub create_after_unlock :
    (t : Mtable) (p q i : ℕ)
    → i < max_mutexes
    → (t i).pid ≡ p
    → ((k : ℕ) → k < i → (t k).pid ≢ 0)
    → (mutex_create (mutex_unlock t p (pos i)).0 q).1 ≡ pos i
create_after_unlock t p q i lt e taken = rw (unlock-hit t p i lt e) (
    ap (λ (o : Mtable × ℤ). o.1)
      (create-of_first _ q i lt (ground arith) (λ k h. ground (arith, taken k h))))
