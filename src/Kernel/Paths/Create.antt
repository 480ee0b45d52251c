-- ===== src/Kernel/Paths/Create.antt =====
-- `create`, as `sys_mkdir` and `sys_mknod` use it, gives back what it takes.
use xv6_tp.Base.{
  ℕ, ◌+◌, ◌-◌, ◌≡◌, ◌≢◌, ◌⊎◌, Bool, true, false, not, ◌&&◌, ◌||◌, ◌==◌, if◌then◌else◌, Option, none,
  some, arith, refl, sym, ap, update, ℤ, pos, negsuc, Bool-cases, inl, inr,
}
use xv6_tp.Base.Run.{Run, done}
use xv6_tp.Kernel.File.Transfer.{t_dir}
use xv6_tp.Kernel.File.Open.{t_file, t_device}
use xv6_tp.Kernel.Paths.{
  State, begin_op, end_op, take, more_links, set_links, create_fails, created, create_new,
  create_found, create_in, create, sys_make,
}
use xv6_tp.Kernel.Paths.Holds.{
  Holds, no_refs, no_locks, Released, IsIdle, begin_op-Holds, take-Holds, lock-Holds,
  unlock_put-Holds, end_op-Released,
}
use xv6_tp.Kernel.Paths.Link.{other_links}

-- A call came to an answer and holds nothing more than before.
abbrev pub EndsReleased : State → Run (ℤ × State) → Type 0
EndsReleased s0 run = (r : ℤ) × (s' : State) × (run ≡ done (r, s')) × Released s0 s'

-- `create` came to no inode with nothing held, or to an inode with its lock and a reference.
abbrev pub Gives : State → Run (Option ℕ × State) → Type 0
Gives s0 run =
    (s : State) × (((run ≡ done (none, s))
        × (r : ℕ → ℕ) × (l : ℕ → Bool) × Holds s0 r l s
        × ((x : ℕ) → r x ≡ 0)
        × ((x : ℕ) → l x ≡ false))
      ⊎ ((ip : ℕ) × (run ≡ done (some ip, s))
          × (r : ℕ → ℕ) × (l : ℕ → Bool) × Holds s0 r l s
          × (r ip ≡ 1)
          × ((x : ℕ) → ip ≢ x → r x ≡ 0)
          × (l ip ≡ true)
          × ((x : ℕ) → ip ≢ x → l x ≡ false)))

module _ (s0 : State) (dp ip : ℕ) where
  abbrev r1 : ℕ → ℕ
  r1 = update no_refs dp 1

  abbrev l1 : ℕ → Bool
  l1 = update no_locks dp true

  abbrev r2 : ℕ → ℕ
  r2 = update r1 ip (r1 ip + 1)

  abbrev l2 : ℕ → Bool
  l2 = update l1 ip true

  module _ (apart : dp ≢ ip) (s : State) (h : Holds s0 r2 l2 s) where
    fails-Gives : Gives s0 (create_fails dp ip s)
    fails-Gives =
        let (s1, run1, h1, n1) =
          unlock_put-Holds s0 ip r2 l2 (set_links ip 0 s)
            (other_links (set_links ip 0 s).nlink (set_links ip 0 s).saved h)
            (λ z. absurd (ground (arith, z))) (ground arith) in
        let (s2, run2, h2, n2) =
          unlock_put-Holds s0 dp (update r2 ip (r2 ip - 1)) (update l2 ip false) s1 h1
            (λ z. absurd (ground (arith, z, apart))) (ground (arith, apart)) in
        (
          s2,
          inl (
            rw (run1, run2) refl,
            _,
            _,
            h2,
            (λ x. ground (arith, apart)),
            (λ x. ground (arith, apart)),
          ),
        )

    created-Gives : Gives s0 (created dp ip s)
    created-Gives =
        let (s1, run1, h1, n1) =
          unlock_put-Holds s0 dp r2 l2 s h (λ z. absurd (ground (arith, z, apart)))
            (ground (arith, apart)) in
        (
          record s1 { mode = update s1.mode ip 6 },
          inr (
            ip,
            rw run1 refl,
            _,
            _,
            record { refs = h1.refs; locks = h1.locks; transaction = h1.transaction },
            ground (arith, apart),
            (λ x ne. ground (arith, apart, ne)),
            ground (arith, apart),
            (λ x ne. ground (arith, apart, ne)),
          ),
        )

  new-Gives :
      (type : ℕ) (dots links : Bool)
      → dp ≢ ip
      → (s : State) → Holds s0 r1 l1 s
      → Gives s0 (create_new type dots links dp (some ip) s)
  new-Gives type dots links apart s h =
      let h1 = take-Holds s0 ip r1 l1 s h in
      let (s2, run2, h2, n2) =
        lock-Holds s0 ip r2 l1 (take ip s) h1 (λ z. absurd (ground (arith, z)))
          (ground (arith, apart)) in
      let s3 = set_links ip 1 s2 in
      let h3 : Holds s0 r2 l2 s3 = other_links s3.nlink s3.saved h2 in
      elim (Bool-cases ((type == t_dir) && not dots || not links)) [
        | inl bad ↦ let g = fails-Gives apart s3 h3 in rw (run2, bad) g
        | inr good ↦ elim (Bool-cases (type == t_dir)) [
          | inl e ↦
              let s4 = more_links dp s3 in
              let g = created-Gives apart s4 (other_links s4.nlink s4.saved h3) in
              rw (run2, good, e) g
          | inr e ↦ let g = created-Gives apart s3 h3 in rw (run2, good, e) g
        ]
      ]

  found-Gives :
      (type old_type : ℕ) (s : State)
      → Holds s0 r1 l1 s
      → Gives s0 (create_found type old_type dp ip (take ip s))
  found-Gives type old_type s h =
      let h1 = take-Holds s0 ip r1 l1 s h in
      let (s2, run2, h2, n2) =
        unlock_put-Holds s0 dp r2 l1 (take ip s) h1 (λ z. absurd (ground (arith, z)))
          (ground arith) in
      let r3 = update r2 dp (r2 dp - 1) in
      let l3 = update l1 dp false in
      let one : r3 ip ≡ 1 = ground arith in
      let (s4, run4, h4, n4) = lock-Holds s0 ip r3 l3 s2 h2 (λ z. omega arith) (ground arith) in
      elim (Bool-cases ((type == t_file) && (old_type == t_file || old_type == t_device))) [
        | inl ok ↦ (
          s4,
          inr (
            ip,
            rw (run2, run4, ok) refl,
            _,
            _,
            h4,
            one,
            (λ x ne. ground (arith, ne)),
            ground arith,
            (λ x ne. ground (arith, ne)),
          ),
        )
        | inr bad ↦
            let (s5, run5, h5, n5) =
              unlock_put-Holds s0 ip r3 (update l3 ip true) s4 h4 (λ z. omega arith)
                (ground arith) in
            (
              s5,
              inl (
                rw (run2, run4, bad, run5) refl,
                _,
                _,
                h5,
                (λ x. ground (arith, one)),
                (λ x. ground arith),
              ),
            )
      ]

no_alloc-Gives :
    (s0 : State) (dp : ℕ) (s : State)
    → Holds s0 (update no_refs dp 1) (update no_locks dp true) s
    → (type : ℕ) (dots links : Bool) → Gives s0 (create_new type dots links dp none s)
no_alloc-Gives s0 dp s h type dots links =
    let (s1, run1, h1, n1) =
      unlock_put-Holds s0 dp (update no_refs dp 1) (update no_locks dp true) s h
        (λ z. absurd (ground (arith, z))) (ground arith) in
    (s1, inl (rw run1 refl, _, _, h1, (λ x. ground arith), (λ x. ground arith)))

create-Gives :
    (type : ℕ) (types : ℕ → ℕ) (parent entry alloc : Option ℕ) (dots links : Bool) (s0 : State)
    → IsIdle s0
    → ((x : ℕ) → parent ≡ some x → alloc ≢ some x)
    → Gives s0 (create type types parent entry alloc dots links (begin_op s0))
unfolding create
create-Gives type types none entry alloc dots links s0 idle apart =
    (begin_op s0, inl (refl, no_refs, no_locks, begin_op-Holds s0 idle, (λ x. refl), (λ x. refl)))
create-Gives type types (some dp) entry alloc dots links s0 idle apart =
    let h1 = take-Holds s0 dp no_refs no_locks (begin_op s0) (begin_op-Holds s0 idle) in
    let (s2, run2, h2, n2) =
      lock-Holds s0 dp (update no_refs dp 1) no_locks (take dp (begin_op s0)) h1
        (λ z. absurd (ground (arith, z))) refl in
    rw run2 (inside s2 h2 entry alloc (λ e. apart dp refl e))
  where
    inside :
        (s : State)
        → Holds s0 (update no_refs dp 1) (update no_locks dp true) s
        → (entry alloc : Option ℕ) → (alloc ≢ some dp)
        → Gives s0 (create_in type types dots links alloc dp entry s)
    inside s h none none ne = no_alloc-Gives s0 dp s h type dots links
    inside s h none (some ip) ne =
        new-Gives s0 dp ip type dots links (λ e. ne (ap some (sym e))) s h
    inside s h (some ip) alloc ne = found-Gives s0 dp ip type (types ip) s h

-- `sys_mkdir` and `sys_mknod`, called without an inode locked, end and do not panic, whatever the
-- directory layer answers. They give back every reference and lock that they and `create`
-- take and end their transaction. A new inode is not the directory that it is made in.
pub sys_make-Released :
    (type : ℕ) (path : Bool) (types : ℕ → ℕ) (parent entry alloc : Option ℕ) (dots links : Bool)
    (s0 : State)
    → IsIdle s0
    → ((x : ℕ) → parent ≡ some x → alloc ≢ some x)
    → EndsReleased s0 (sys_make type path types parent entry alloc dots links s0)
unfolding sys_make
sys_make-Released type false types parent entry alloc dots links s0 idle apart = (
  negsuc 0,
  end_op (begin_op s0),
  refl,
  end_op-Released s0 no_refs no_locks (begin_op s0) (begin_op-Holds s0 idle) (λ x. refl)
      (λ x. refl),
)
sys_make-Released type true types parent entry alloc dots links s0 idle apart =
    let (s, g) = create-Gives type types parent entry alloc dots links s0 idle apart in
    elim g [
      | inl (run, r, l, h, no_r, no_l) ↦
          (negsuc 0, end_op s, rw run refl, end_op-Released s0 r l s h no_r no_l)
      | inr (ip, run, r, l, h, one, rest, own, others) ↦
          let (s1, run1, h1, n1) = unlock_put-Holds s0 ip r l s h (λ z. omega arith) own in
          (
            pos 0,
            end_op s1,
            rw (run, run1) refl,
            end_op-Released s0 _ _ s1 h1 (λ x. none_left ip x (r ip) (r x) one (rest x))
                (λ x. ground (arith, others x)),
          )
    ]
  where
    none_left : (ip x a b : ℕ) → a ≡ 1 → (ip ≢ x → b ≡ 0) → (if ip == x then a - 1 else b) ≡ 0
    none_left ip x a b e g = ground arith
