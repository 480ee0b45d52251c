-- ===== src/Kernel/Paths/Mode.antt =====
-- `sys_chmod` and `sys_chdir`.
use xv6_tp.Base.{
  ℕ, ◌+◌, ◌-◌, ◌%◌, ◌^◌, ◌≡◌, ◌≢◌, Bool, true, false, ◌==◌, if◌then◌else◌, Option, none, some,
  arith, refl, ap, update, update_self, ℤ, pos, negsuc, Bool-cases, inl, inr,
}
use xv6_tp.Base.Run.{Run, done}
use xv6_tp.Kernel.File.Transfer.{t_dir}
use xv6_tp.Kernel.Paths.{
  State, begin_op, end_op, take, iput, lock, unlock, iupdate, sys_chmod, sys_chdir,
}
use xv6_tp.Kernel.Paths.Holds.{
  no_refs, no_locks, Released, IsIdle, begin_op-Holds, take-Holds, lock-Holds, unlock-Holds,
  unlock_put-Holds, end_op-Released,
}

-- `sys_chmod` of a path that is found, called without an inode locked, answers 0 and has set the
-- mode of that inode, in the table and on the disk, to the 16 low bits of its argument. All other
-- modes and copies on the disk and every link count stay, all locks are given back and the
-- transaction is ended, but the reference that `namei` took is kept: the inode has one more.
pub sys_chmod-keeps_reference :
    (mode ip : ℕ) (s0 : State)
    → IsIdle s0
    → (s' : State) × (sys_chmod mode true (some ip) s0 ≡ done (pos 0, s'))
      × ((x : ℕ) → s'.mode x ≡ (if ip == x then mode % 2 ^ 16 else s0.mode x))
      × ((x : ℕ) → s'.saved x ≡ (if ip == x then (s0.nlink ip, mode % 2 ^ 16) else s0.saved x))
      × (s'.nlink ≡ s0.nlink)
      × ((x : ℕ) → s'.refs x ≡ (if ip == x then s0.refs x + 1 else s0.refs x))
      × ((x : ℕ) → s'.locked x ≡ false)
      × (s'.transactions ≡ s0.transactions)
unfolding sys_chmod
sys_chmod-keeps_reference mode ip s0 idle =
    let s1 = take ip (begin_op s0) in
    let s2 : State = record s1 { locked = update s1.locked ip true } in
    let s3 = iupdate ip (record s2 { mode = update s2.mode ip (mode % 2 ^ 16) }) in
    let s4 : State = record s3 { locked = update s3.locked ip false } in
    let has_ref : (s1.refs ip == 0) ≡ false = ground arith in
    let owned : s3.locked ip ≡ true = ground arith in
    let locks : lock ip s1 ≡ done s2 = rw (has_ref, idle ip) refl in
    let unlocks : unlock ip s3 ≡ done s4 = rw (owned, has_ref) refl in
    (
      end_op s4,
      rw (locks, unlocks) refl,
      (λ x. refl),
      (λ x.
          ap (λ m. if ip == x then (s0.nlink ip, m) else s0.saved x)
            (update_self s0.mode ip (mode % 2 ^ 16))),
      refl,
      (λ x. ground arith),
      (λ x. ground (arith, idle x)),
      omega arith,
    )

-- A call of `sys_chdir` that came to `run`: the process still holds one reference, to the directory that it is in.
pub record Moved (s0 : State) (cwd : ℕ) (run : Run (ℤ × ℕ × State)) : Type 0 where
  pub answer : ℤ
  pub cwd' : ℕ
  pub s' : State
  pub runs : run ≡ done (answer, cwd', s')
  pub refs :
      (x : ℕ) → s'.refs x + (if cwd == x then 1 else 0) ≡ s0.refs x + (if cwd' == x then 1 else 0)
  pub locks : (x : ℕ) → s'.locked x ≡ false
  pub transaction : s'.transactions ≡ s0.transactions
  pub stays : answer ≡ negsuc 0 → cwd' ≡ cwd

released-Moved :
    (s0 s : State) (cwd : ℕ) (run : Run (ℤ × ℕ × State))
    → Released s0 s
    → run ≡ done (negsuc 0, cwd, s)
    → Moved s0 cwd run
released-Moved s0 s cwd run rel e = record {
  answer = negsuc 0;
  cwd' = cwd;
  s' = s;
  runs = e;
  refs = λ x. omega (arith, rel.refs x);
  locks = rel.locks;
  transaction = rel.transaction;
  stays = λ e. refl;
}

-- `sys_chdir`, called without an inode locked by a process that has a reference to its directory,
-- ends and does not panic. It moves that reference to the new directory, and on -1 the process
-- stays where it was; every other reference, every lock and the transaction are given back.
pub sys_chdir-Moved :
    (types : ℕ → ℕ) (path : Bool) (found : Option ℕ) (cwd : ℕ) (s0 : State)
    → IsIdle s0
    → s0.refs cwd ≢ 0
    → Moved s0 cwd (sys_chdir types path found cwd s0)
unfolding sys_chdir
sys_chdir-Moved types false found cwd s0 idle held =
    released-Moved s0 (end_op (begin_op s0)) cwd _
      (end_op-Released s0 no_refs no_locks (begin_op s0) (begin_op-Holds s0 idle) (λ x. refl)
        (λ x. refl))
      refl
sys_chdir-Moved types true none cwd s0 idle held =
    released-Moved s0 (end_op (begin_op s0)) cwd _
      (end_op-Released s0 no_refs no_locks (begin_op s0) (begin_op-Holds s0 idle) (λ x. refl)
        (λ x. refl))
      refl
sys_chdir-Moved types true (some ip) cwd s0 idle held =
    let h1 = take-Holds s0 ip no_refs no_locks (begin_op s0) (begin_op-Holds s0 idle) in
    let r1 = update no_refs ip 1 in
    let one : r1 ip ≢ 0 = λ z. absurd (ground (arith, z)) in
    let (s2, run2, h2, n2) = lock-Holds s0 ip r1 no_locks (take ip (begin_op s0)) h1 one refl in
    elim (Bool-cases (types ip == t_dir)) [
      | inr no_dir ↦
          let (s3, run3, h3, n3) =
            unlock_put-Holds s0 ip r1 (update no_locks ip true) s2 h2 one (ground arith) in
          released-Moved s0 (end_op s3) cwd _
            (end_op-Released s0 _ _ s3 h3 (λ x. ground arith) (λ x. ground arith))
            (rw (run2, no_dir, run3) refl)
      | inl is_dir ↦
          let (s3, run3, h3, n3) =
            unlock-Holds s0 ip r1 (update no_locks ip true) s2 h2 one (ground arith) in
          record {
            answer = pos 0;
            cwd' = ip;
            s' = end_op (iput cwd s3);
            runs = rw (run2, is_dir, run3) refl;
            refs = λ x.
                balance x (s3.refs cwd) (s3.refs x) (s0.refs cwd) (s0.refs x) (h3.refs cwd)
                  (h3.refs x) held (λ e. ap s3.refs e) (λ e. ap s0.refs e);
            locks = λ x. ground (arith, h3.locks x);
            transaction = omega (arith, h3.transaction);
            stays = λ e. absurd (ground (arith, e));
          }
    ]
  where
    balance :
        (x a b c e : ℕ)
        → a ≡ c + (if ip == cwd then 1 else 0)
        → b ≡ e + (if ip == x then 1 else 0)
        → c ≢ 0
        → (cwd ≡ x → a ≡ b)
        → (cwd ≡ x → c ≡ e)
        → (if cwd == x then a - 1 else b) + (if cwd == x then 1 else 0)
          ≡ e + (if ip == x then 1 else 0)
    balance x a b c e p q nz f g = ground arith
