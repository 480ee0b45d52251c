-- ===== src/Kernel/Paths/Unlink.antt =====
-- `sys_unlink`: a link less, or nothing.
use xv6_tp.Base.{
  ℕ, ◌+◌, ◌-◌, ◌%◌, ◌^◌, ◌<◌, ◌≡◌, ◌≢◌, ◌⊎◌, Bool, true, false, not, ◌&&◌, ◌==◌, if◌then◌else◌,
  Option, none, some, arith, refl, sym, ◌∙◌, ap, update, ℤ, pos, negsuc, Bool-cases, inl, inr,
}
use xv6_tp.Base.Run.{Run, done}
use xv6_tp.Kernel.File.Transfer.{t_dir}
use xv6_tp.Kernel.Paths.{
  State, begin_op, end_op, take, fewer_links, no_links, unlink_bad, unlink_entry, unlink_locked,
  sys_unlink,
}
use xv6_tp.Kernel.Paths.Holds.{
  Holds, no_refs, no_locks, Released, IsIdle, begin_op-Holds, take-Holds, lock-Holds,
  unlock_put-Holds, end_op-Released,
}
use xv6_tp.Kernel.Paths.Link.{other_links}

-- The counts of links when the entry of `ip` in `dp` is gone.
abbrev pub unlinked : (is_dir : Bool) (dp ip : ℕ) → (ℕ → ℕ) → ℕ → ℕ
unlinked is_dir dp ip n x = if x == ip then n x - 1 else if is_dir && x == dp then n x - 1 else n x

-- A call of `sys_unlink` that came to `run`.
pub record Unlinked (s0 : State) (types : ℕ → ℕ) (parent entry : Option ℕ) (run : Run (ℤ × State))
    : Type 0 where
  pub s' : State
  pub released : Released s0 s'
  pub outcome :
      ((run ≡ done (negsuc 0, s')) × ((x : ℕ) → s'.nlink x ≡ s0.nlink x))
      ⊎ ((dp : ℕ) × (ip : ℕ) × (parent ≡ some dp)
          × (entry ≡ some ip)
          × (run ≡ done (pos 0, s'))
          × ((x : ℕ) → s'.nlink x ≡ unlinked (types ip == t_dir) dp ip s0.nlink x))

-- A count of links that the code takes for positive.
abbrev pub HasLinks : ℕ → Type 0
HasLinks n = (0 < n) × (n < 2 ^ 15)

failed :
    {s0 s : State} (types : ℕ → ℕ) (parent entry : Option ℕ) {run : Run (ℤ × State)}
    → Released s0 s
    → run ≡ done (negsuc 0, s)
    → s.nlink ≡ s0.nlink
    → Unlinked s0 types parent entry run
failed {s = s} types parent entry rel run same = record {
  s' = s;
  released = rel;
  outcome = inl (run, λ x. ap (λ (g : ℕ → ℕ). g x) same);
}

one_less : (n : ℕ) → HasLinks n → (n + 2 ^ 16 - 1) % 2 ^ 16 ≡ n - 1
one_less n (lo, hi) = omega arith

module _ (s0 : State) (types : ℕ → ℕ) (dp ip : ℕ) (apart : dp ≢ ip)
    (links_ip : HasLinks (s0.nlink ip)) (links_dp : HasLinks (s0.nlink dp)) where
  links_after :
      (is_dir : Bool) (n : ℕ → ℕ) (x : ℕ)
      → n ≡ (if is_dir then update s0.nlink dp ((s0.nlink dp + 2 ^ 16 - 1) % 2 ^ 16) else s0.nlink)
      → update n ip ((n ip + 2 ^ 16 - 1) % 2 ^ 16) x ≡ unlinked is_dir dp ip s0.nlink x
  links_after true n x e = rw e (
      both x (s0.nlink dp) (s0.nlink ip) (s0.nlink x) links_dp links_ip (λ q. ap s0.nlink q)
        (λ q. ap s0.nlink q))
    where
      both :
          (x a b c : ℕ)
          → HasLinks a
          → HasLinks b
          → (dp ≡ x → a ≡ c)
          → (ip ≡ x → b ≡ c)
          → (if ip == x
              then ((if dp == ip then (a + 2 ^ 16 - 1) % 2 ^ 16 else b) + 2 ^ 16 - 1) % 2 ^ 16
              else if dp == x
              then (a + 2 ^ 16 - 1) % 2 ^ 16
              else c)
            ≡ (if x == ip then c - 1 else if x == dp then c - 1 else c)
      both x a b c ha hb f g = ground arith
  links_after false n x e = rw e (one x (s0.nlink ip) (s0.nlink x) links_ip (λ q. ap s0.nlink q))
    where
      one :
          (x b c : ℕ)
          → HasLinks b
          → (ip ≡ x → b ≡ c)
          → (if ip == x then (b + 2 ^ 16 - 1) % 2 ^ 16 else c) ≡ (if x == ip then c - 1 else c)
      one x b c hb g = ground arith

  -- With the directory locked: one reference to it, and perhaps one to the entry's inode, locked too.
  bad-Unlinked :
      (r : ℕ → ℕ) (l : ℕ → Bool) (s : State)
      → Holds s0 r l s
      → s.nlink ≡ s0.nlink
      → r dp ≡ 1
      → ((x : ℕ) → dp ≢ x → r x ≡ 0)
      → l dp ≡ true
      → ((x : ℕ) → dp ≢ x → l x ≡ false)
      → (entry : Option ℕ) → Unlinked s0 types (some dp) entry (unlink_bad dp s)
  bad-Unlinked r l s h n one rest own others entry =
      let (s1, run1, h1, n1) = unlock_put-Holds s0 dp r l s h (λ z. omega arith) own in
      failed types (some dp) entry
        (end_op-Released s0 _ _ s1 h1 (λ x. none_left x (r dp) (r x) one (rest x))
          (λ x. ground (arith, others x)))
        (rw run1 refl) (n1 ∙ n)
    where
      none_left : (x a b : ℕ) → a ≡ 1 → (dp ≢ x → b ≡ 0) → (if dp == x then a - 1 else b) ≡ 0
      none_left x a b e g = ground arith

  -- Both are locked.
  abbrev r2 : ℕ → ℕ
  r2 = update (update no_refs dp 1) ip (update no_refs dp 1 ip + 1)

  abbrev l2 : ℕ → Bool
  l2 = update (update no_locks dp true) ip true

  entry-Unlinked :
      (s : State) (is_dir : Bool)
      → (types ip == t_dir) ≡ is_dir
      → Holds s0 r2 l2 s
      → s.nlink ≡ s0.nlink
      → Unlinked s0 types (some dp) (some ip) (unlink_entry is_dir dp ip s)
  entry-Unlinked s is_dir ty h n =
      let s1 : State = if is_dir then fewer_links dp s else s in
      let h1 : Holds s0 r2 l2 s1 =
        elim is_dir as (λ b. Holds s0 r2 l2 (if b then fewer_links dp s else s)) [
          | true ↦ other_links (fewer_links dp s).nlink (fewer_links dp s).saved h
          | false ↦ h
        ] in
      let n1 : s1.nlink ≡ (
          if is_dir then update s0.nlink dp ((s0.nlink dp + 2 ^ 16 - 1) % 2 ^ 16) else s0.nlink) =
        elim is_dir
          as (λ b.
            (if b then fewer_links dp s else s).nlink
            ≡ (if b then update s0.nlink dp ((s0.nlink dp + 2 ^ 16 - 1) % 2 ^ 16) else s0.nlink)) [
              | true ↦ ap (λ (g : ℕ → ℕ). update g dp ((g dp + 2 ^ 16 - 1) % 2 ^ 16)) n
              | false ↦ n
            ] in
      let (s2, run2, h2, n2) =
        unlock_put-Holds s0 dp r2 l2 s1 h1 (λ z. absurd (ground (arith, z, apart)))
          (ground (arith, apart)) in
      let s3 = fewer_links ip s2 in
      let r3 = update r2 dp (r2 dp - 1) in
      let l3 = update l2 dp false in
      let (s4, run4, h4, n4) =
        unlock_put-Holds s0 ip r3 l3 s3 (other_links s3.nlink s3.saved h2)
          (λ z. absurd (ground (arith, z, apart))) (ground (arith, apart)) in
      record {
        s' = end_op s4;
        released =
            end_op-Released s0 _ _ s4 h4 (λ x. ground (arith, apart)) (λ x. ground (arith, apart));
        outcome = inr (
          dp,
          ip,
          refl,
          refl,
          rw (run2, run4) refl,
          λ x.
              ap (λ (g : ℕ → ℕ). g x) n4
              ∙ links_after is_dir s2.nlink x (n2 ∙ n1)
              ∙ ap (λ b. unlinked b dp ip s0.nlink x) (sym ty),
        );
      }

  locked-Unlinked :
      (s : State) (empty : Bool)
      → Holds s0 r2 l2 s
      → s.nlink ≡ s0.nlink
      → Unlinked s0 types (some dp) (some ip) (unlink_locked (types ip == t_dir) empty true dp ip s)
  locked-Unlinked s empty h n =
      let has : no_links (s.nlink ip) ≡ false =
        ground (arith, links_ip, ap (λ (g : ℕ → ℕ). g ip) n) in
      elim (Bool-cases ((types ip == t_dir) && not empty)) [
        | inr good ↦ let e = entry-Unlinked s (types ip == t_dir) refl h n in rw (has, good) e
        | inl busy ↦
            let (s1, run1, h1, n1) =
              unlock_put-Holds s0 ip r2 l2 s h (λ z. absurd (ground (arith, z))) (ground arith) in
            let b =
              bad-Unlinked (update r2 ip (r2 ip - 1)) (update l2 ip false) s1 h1 (n1 ∙ n)
                (ground (arith, apart)) (λ x ne. ground (arith, ne)) (ground (arith, apart))
                (λ x ne. ground (arith, ne)) (some ip) in
            rw (has, busy, run1) b
      ]

-- `sys_unlink`, called without an inode locked, ends, and does not panic if the inodes have links and
-- the entry can be cleared. It gives back every reference and lock that it takes and ends its transaction.
-- It answers 0, and the inode of the entry has one link less, as has the directory if a directory was
-- removed; or it answers -1 and no link count has changed. The entry is not the directory itself.
pub sys_unlink-Unlinked :
    (types : ℕ → ℕ) (path : Bool) (parent : Option ℕ) (dots : Bool) (entry : Option ℕ)
    (empty : Bool) (s0 : State)
    → IsIdle s0
    → ((x : ℕ) → (parent ≡ some x) ⊎ (entry ≡ some x) → HasLinks (s0.nlink x))
    → ((x : ℕ) → parent ≡ some x → entry ≢ some x)
    → Unlinked s0 types parent entry (sys_unlink types path parent dots entry empty true s0)
unfolding sys_unlink
sys_unlink-Unlinked types false parent dots entry empty s0 idle has apart =
    failed types parent entry (record { refs = λ x. refl; locks = idle; transaction = refl }) refl
      refl
sys_unlink-Unlinked types true none dots entry empty s0 idle has apart =
    failed types none entry
      (end_op-Released s0 no_refs no_locks (begin_op s0) (begin_op-Holds s0 idle) (λ x. refl)
        (λ x. refl))
      refl refl
sys_unlink-Unlinked types true (some dp) dots none empty s0 idle has apart =
    let h1 = take-Holds s0 dp no_refs no_locks (begin_op s0) (begin_op-Holds s0 idle) in
    let r1 = update no_refs dp 1 in
    let (s2, run2, h2, n2) =
      lock-Holds s0 dp r1 no_locks (take dp (begin_op s0)) h1 (λ z. absurd (ground (arith, z)))
        refl in
    let (s3, run3, h3, n3) =
      unlock_put-Holds s0 dp r1 (update no_locks dp true) s2 h2 (λ z. absurd (ground (arith, z)))
        (ground arith) in
    failed types (some dp) none
      (end_op-Released s0 _ _ s3 h3 (λ x. ground arith) (λ x. ground arith))
      (elim (Bool-cases dots) [ inl e ↦ rw (run2, e, run3) refl | inr e ↦ rw (run2, e, run3) refl ])
      (n3 ∙ n2)
sys_unlink-Unlinked types true (some dp) dots (some ip) empty s0 idle has apart =
    let h1 = take-Holds s0 dp no_refs no_locks (begin_op s0) (begin_op-Holds s0 idle) in
    let r1 = update no_refs dp 1 in
    let ne : dp ≢ ip = λ e. apart dp refl (ap some (sym e)) in
    let links_ip = has ip (inr refl) in
    let links_dp = has dp (inl refl) in
    let (s2, run2, h2, n2) =
      lock-Holds s0 dp r1 no_locks (take dp (begin_op s0)) h1 (λ z. absurd (ground (arith, z)))
        refl in
    let l1 = update no_locks dp true in
    elim (Bool-cases dots) [
      | inl e ↦
          let b =
            bad-Unlinked s0 types dp ip ne links_ip links_dp r1 l1 s2 h2 n2 (ground arith)
              (λ x q. ground arith) (ground arith) (λ x q. ground arith) (some ip) in
          rw (run2, e) b
      | inr e ↦
          let h3 = take-Holds s0 ip r1 l1 s2 h2 in
          let (s4, run4, h4, n4) =
            lock-Holds s0 ip (update r1 ip (r1 ip + 1)) l1 (take ip s2) h3
              (λ z. absurd (ground (arith, z))) (ground (arith, ne)) in
          let b = locked-Unlinked s0 types dp ip ne links_ip links_dp s4 empty h4 (n4 ∙ n2) in
          rw (run2, e, run4) b
    ]
