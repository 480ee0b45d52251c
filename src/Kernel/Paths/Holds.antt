-- ===== src/Kernel/Paths/Holds.antt =====
-- What a call holds on its way: references and locks.
use xv6_tp.Base.{
  ℕ, ◌+◌, ◌-◌, ◌≡◌, ◌≢◌, Bool, true, false, ◌==◌, if◌then◌else◌, arith, refl, ap, update,
}
use xv6_tp.Base.Run.{done}
use xv6_tp.Kernel.Paths.{State, begin_op, end_op, take, iput, lock, unlock, unlock_put}

-- In `s`, of a call that began in `s0`: the references `r` that it took, the locks `l` that it has,
-- and its transaction.
pub record Holds (s0 : State) (r : ℕ → ℕ) (l : ℕ → Bool) (s : State) : Type 0 where
  pub refs : (x : ℕ) → s.refs x ≡ s0.refs x + r x
  pub locks : (x : ℕ) → s.locked x ≡ l x
  pub transaction : s.transactions ≡ s0.transactions + 1

abbrev pub no_refs : ℕ → ℕ
no_refs x = 0

abbrev pub no_locks : ℕ → Bool
no_locks x = false

-- A call is over: it holds what it held before.
pub record Released (s0 s : State) : Type 0 where
  pub refs : (x : ℕ) → s.refs x ≡ s0.refs x
  pub locks : (x : ℕ) → s.locked x ≡ false
  pub transaction : s.transactions ≡ s0.transactions

-- No inode is locked by the caller.
abbrev pub IsIdle : State → Type 0
IsIdle s = (x : ℕ) → s.locked x ≡ false

pub begin_op-Holds : (s0 : State) → IsIdle s0 → Holds s0 no_refs no_locks (begin_op s0)
begin_op-Holds s0 idle = record { refs = λ x. omega arith; locks = idle; transaction = refl }

module _ (s0 : State) (ip : ℕ) (r : ℕ → ℕ) (l : ℕ → Bool) (s : State) (h : Holds s0 r l s) where
  pub take-Holds : Holds s0 (update r ip (r ip + 1)) l (take ip s)
  take-Holds = record {
    refs = λ x.
        one_more x (s.refs ip) (s.refs x) (s0.refs ip) (s0.refs x) (r ip) (r x) (h.refs ip)
          (h.refs x) (at x);
    locks = h.locks;
    transaction = h.transaction;
  }
    where
      at : (x : ℕ) → ip ≡ x → (s0.refs ip ≡ s0.refs x)
      at x e = ap s0.refs e

      one_more :
          (x a b c d p q : ℕ)
          → a ≡ c + p
          → b ≡ d + q
          → (ip ≡ x → c ≡ d)
          → (if ip == x then a + 1 else b) ≡ d + (if ip == x then p + 1 else q)
      one_more x a b c d p q e f g = ground arith

  pub iput-Holds : r ip ≢ 0 → Holds s0 (update r ip (r ip - 1)) l (iput ip s)
  iput-Holds nz = record {
    refs = λ x.
        one_less x (s.refs ip) (s.refs x) (s0.refs ip) (s0.refs x) (r ip) (r x) (h.refs ip)
          (h.refs x) nz (λ e. ap s0.refs e);
    locks = h.locks;
    transaction = h.transaction;
  }
    where
      one_less :
          (x a b c d p q : ℕ)
          → a ≡ c + p
          → b ≡ d + q
          → p ≢ 0
          → (ip ≡ x → c ≡ d)
          → (if ip == x then a - 1 else b) ≡ d + (if ip == x then p - 1 else q)
      one_less x a b c d p q e f nz g = ground arith

  pub lock-Holds :
      r ip ≢ 0
      → l ip ≡ false
      → (s' : State) × (lock ip s ≡ done s')
        × Holds s0 r (update l ip true) s'
        × (s'.nlink ≡ s.nlink)
  lock-Holds nz free =
      let has_ref : (s.refs ip == 0) ≡ false = ground (arith, h.refs ip, nz) in
      let unlocked : s.locked ip ≡ false = ground (arith, h.locks ip, free) in
      (
        record s { locked = update s.locked ip true },
        rw (has_ref, unlocked) refl,
        record {
          refs = h.refs;
          locks = λ x. ground (arith, h.locks x);
          transaction = h.transaction;
        },
        refl,
      )

  pub unlock-Holds :
      r ip ≢ 0
      → l ip ≡ true
      → (s' : State) × (unlock ip s ≡ done s')
        × Holds s0 r (update l ip false) s'
        × (s'.nlink ≡ s.nlink)
  unlock-Holds nz own =
      let has_ref : (s.refs ip == 0) ≡ false = ground (arith, h.refs ip, nz) in
      let owned : s.locked ip ≡ true = ground (arith, h.locks ip, own) in
      (
        record s { locked = update s.locked ip false },
        rw (owned, has_ref) refl,
        record {
          refs = h.refs;
          locks = λ x. ground (arith, h.locks x);
          transaction = h.transaction;
        },
        refl,
      )

pub unlock_put-Holds :
    (s0 : State) (ip : ℕ) (r : ℕ → ℕ) (l : ℕ → Bool) (s : State)
    → Holds s0 r l s
    → r ip ≢ 0
    → l ip ≡ true
    → (s' : State) × (unlock_put ip s ≡ done s')
      × Holds s0 (update r ip (r ip - 1)) (update l ip false) s'
      × (s'.nlink ≡ s.nlink)
unlock_put-Holds s0 ip r l s h nz own =
    let (s1, run, h1, same) = unlock-Holds s0 ip r l s h nz own in
    (iput ip s1, rw run refl, iput-Holds s0 ip r (update l ip false) s1 h1 nz, same)

pub end_op-Released :
    (s0 : State) (r : ℕ → ℕ) (l : ℕ → Bool) (s : State)
    → Holds s0 r l s
    → ((x : ℕ) → r x ≡ 0)
    → ((x : ℕ) → l x ≡ false)
    → Released s0 (end_op s)
end_op-Released s0 r l s h no_r no_l = record {
  refs = λ x. omega (arith, h.refs x, no_r x);
  locks = λ x. ground (arith, h.locks x, no_l x);
  transaction = omega (arith, h.transaction);
}
