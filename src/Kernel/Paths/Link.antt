-- ===== src/Kernel/Paths/Link.antt =====
-- `sys_link`: a link more, or nothing.
use xv6_tp.Base.{
  ℕ, ◌+◌, ◌-◌, ◌%◌, ◌^◌, ◌<◌, ◌≡◌, ◌≢◌, ◌⊎◌, Bool, true, false, ◌==◌, if◌then◌else◌, Option, none,
  some, arith, refl, ◌∙◌, ap, update, ℤ, pos, negsuc, Bool-cases, inl, inr,
}
use xv6_tp.Base.Run.{Run, done}
use xv6_tp.Kernel.File.Transfer.{t_dir}
use xv6_tp.Kernel.Paths.{
  State, begin_op, end_op, take, iput, more_links, fewer_links, link_bad, link_parent, link_inode,
  sys_link,
}
use xv6_tp.Kernel.Paths.Holds.{
  Holds, no_refs, no_locks, Released, IsIdle, begin_op-Holds, take-Holds, iput-Holds, lock-Holds,
  unlock-Holds, unlock_put-Holds, end_op-Released,
}

-- Link counts are shorts.
abbrev pub AreShorts : State → Type 0
AreShorts s = (x : ℕ) → s.nlink x < 2 ^ 16

-- A call of `sys_link` that came to `run`: -1 and no link changed, or 0 and one more link to the inode found.
pub record Linked (s0 : State) (found : Option ℕ) (run : Run (ℤ × State)) : Type 0 where
  pub s' : State
  pub released : Released s0 s'
  pub outcome :
      ((run ≡ done (negsuc 0, s')) × ((x : ℕ) → s'.nlink x ≡ s0.nlink x))
      ⊎ ((ip : ℕ) × (found ≡ some ip)
          × (run ≡ done (pos 0, s'))
          × ((x : ℕ) → s'.nlink x ≡ (if x == ip then (s0.nlink ip + 1) % 2 ^ 16 else s0.nlink x)))

pub other_links :
    {s0 : State} {r : ℕ → ℕ} {l : ℕ → Bool} {s : State} (n : ℕ → ℕ) (v : ℕ → ℕ × ℕ)
    → Holds s0 r l s
    → Holds s0 r l (record s { nlink = n; saved = v })
other_links n v h = record { refs = h.refs; locks = h.locks; transaction = h.transaction }

module _ (s0 : State) (shorts : AreShorts s0) (found : Option ℕ) (ip : ℕ) where
  plus_one : (ℕ → ℕ) → ℕ → ℕ
  plus_one n = update n ip ((n ip + 1) % 2 ^ 16)

  there_and_back :
      (n : ℕ → ℕ) (x : ℕ)
      → n ≡ update s0.nlink ip ((s0.nlink ip + 1) % 2 ^ 16)
      → update n ip ((n ip + 2 ^ 16 - 1) % 2 ^ 16) x ≡ s0.nlink x
  there_and_back n x e = rw e (back x (s0.nlink ip) (s0.nlink x) (shorts ip) (λ q. ap s0.nlink q))
    where
      back :
          (x a b : ℕ)
          → a < 2 ^ 16
          → (ip ≡ x → a ≡ b)
          → (if ip == x
              then ((if ip == ip then (a + 1) % 2 ^ 16 else a) + 2 ^ 16 - 1) % 2 ^ 16
              else if ip == x
              then (a + 1) % 2 ^ 16
              else b)
            ≡ b
      back x a b lt g = ground arith

  bad-Linked :
      (r : ℕ → ℕ) (l : ℕ → Bool) (s : State)
      → Holds s0 r l s
      → s.nlink ≡ update s0.nlink ip ((s0.nlink ip + 1) % 2 ^ 16)
      → r ip ≢ 0
      → l ip ≡ false
      → ((x : ℕ) → update r ip (r ip - 1) x ≡ 0)
      → ((x : ℕ) → l x ≡ false)
      → Linked s0 found (link_bad ip s)
  bad-Linked r l s h n nz free no_r no_l =
      let (s1, run1, h1, n1) = lock-Holds s0 ip r l s h nz free in
      let s2 = fewer_links ip s1 in
      let (s3, run3, h3, n3) =
        unlock_put-Holds s0 ip r (update l ip true) s2 (other_links s2.nlink s2.saved h1) nz
          (ground arith) in
      record {
        s' = end_op s3;
        released = end_op-Released s0 _ _ s3 h3 no_r (λ x. ground (arith, no_l x));
        outcome = inl (
          rw (run1, run3) refl,
          λ x. ap (λ (g : ℕ → ℕ). g x) n3 ∙ there_and_back s1.nlink x (n1 ∙ n),
        );
      }

  module _ (is_found : found ≡ some ip) (r : ℕ → ℕ) (l : ℕ → Bool) (s : State) (h : Holds s0 r l s)
      (n : s.nlink ≡ update s0.nlink ip ((s0.nlink ip + 1) % 2 ^ 16)) (own : r ip ≡ 1)
      (rest : (x : ℕ) → ip ≢ x → r x ≡ 0) (no_l : (x : ℕ) → l x ≡ false) where
    parent-Linked :
        (links : Bool) (parent : Option ℕ) → Linked s0 found (link_parent ip links parent s)
    parent-Linked links none =
        bad-Linked r l s h n (omega (arith, own)) (no_l ip) (λ x. none_left x (r x) (rest x)) no_l
      where
        none_left : (x a : ℕ) → (ip ≢ x → a ≡ 0) → (if ip == x then r ip - 1 else a) ≡ 0
        none_left x a g = ground (arith, own)
    parent-Linked links (some dp) =
        let h1 = take-Holds s0 dp r l s h in
        let r1 = update r dp (r dp + 1) in
        let one : r1 dp ≢ 0 = λ z. absurd (ground (arith, z)) in
        let (s2, run2, h2, n2) = lock-Holds s0 dp r1 l (take dp s) h1 one (no_l dp) in
        let (s3, run3, h3, n3) =
          unlock_put-Holds s0 dp r1 (update l dp true) s2 h2 one (ground arith) in
        let r3 = update r1 dp (r1 dp - 1) in
        let r3_same : (x : ℕ) → r3 x ≡ r x = λ x. back dp x (r dp) (r x) (λ e. ap r e) in
        let n_now : s3.nlink ≡ update s0.nlink ip ((s0.nlink ip + 1) % 2 ^ 16) = n3 ∙ n2 ∙ n in
        let l3 : (x : ℕ) → update (update l dp true) dp false x ≡ false =
          λ x. ground (arith, no_l x) in
        let r3_ip : r3 ip ≢ 0 = λ z. omega (arith, own, r3_same ip, z) in
        let no_r : (x : ℕ) → update r3 ip (r3 ip - 1) x ≡ 0 =
          λ x. none_left x (r3 ip) (r3 x) (r3_same ip ∙ own) (λ ne. r3_same x ∙ rest x ne) in
        elim (Bool-cases links) [
          | inl ok ↦
              let h4 = iput-Holds s0 ip r3 (update (update l dp true) dp false) s3 h3 r3_ip in
              record {
                s' = end_op (iput ip s3);
                released = end_op-Released s0 _ _ (iput ip s3) h4 no_r l3;
                outcome = inr (
                  ip,
                  is_found,
                  rw (run2, run3, ok) refl,
                  λ x. ap (λ (g : ℕ → ℕ). g x) n_now ∙ ground arith,
                );
              }
          | inr bad ↦
              let b =
                bad-Linked r3 (update (update l dp true) dp false) s3 h3 n_now r3_ip (l3 ip) no_r
                  l3 in
              let run : link_parent ip links (some dp) s ≡ link_bad ip s3 =
                rw (run2, run3, bad) refl in
              record {
                s' = b.s';
                released = b.released;
                outcome = elim b.outcome [
                  | inl (e, same) ↦ inl (run ∙ e, same)
                  | inr (i, e, run', counts) ↦ inr (i, e, run ∙ run', counts)
                ];
              }
        ]
      where
        back :
            (dp x a b : ℕ)
            → (dp ≡ x → a ≡ b)
            → (if dp == x
                then (if dp == dp then a + 1 else a) - 1
                else if dp == x
                then a + 1
                else b)
              ≡ b
        back dp x a b g = ground arith

        none_left : (x a b : ℕ) → a ≡ 1 → (ip ≢ x → b ≡ 0) → (if ip == x then a - 1 else b) ≡ 0
        none_left x a b e g = ground arith

failed :
    {s0 s : State} (found : Option ℕ) {run : Run (ℤ × State)}
    → Released s0 s
    → run ≡ done (negsuc 0, s)
    → s.nlink ≡ s0.nlink
    → Linked s0 found run
failed {s = s} found rel run same = record {
  s' = s;
  released = rel;
  outcome = inl (run, λ x. ap (λ (g : ℕ → ℕ). g x) same);
}

-- `sys_link`, called without an inode locked, ends and does not panic. It gives back every reference and lock
-- that it takes and ends its transaction. It answers 0 and the inode found has one link more (as a
-- short), or -1 and no link count has changed.
pub sys_link-Linked :
    (types : ℕ → ℕ) (path : Bool) (found parent : Option ℕ) (links : Bool) (s0 : State)
    → IsIdle s0
    → AreShorts s0
    → Linked s0 found (sys_link types path found parent links s0)
unfolding sys_link
sys_link-Linked types false found parent links s0 idle shorts =
    failed found (record { refs = λ x. refl; locks = idle; transaction = refl }) refl refl
sys_link-Linked types true none parent links s0 idle shorts =
    failed none
      (end_op-Released s0 no_refs no_locks (begin_op s0) (begin_op-Holds s0 idle) (λ x. refl)
        (λ x. refl))
      refl refl
sys_link-Linked types true (some ip) parent links s0 idle shorts =
    let s1 = take ip (begin_op s0) in
    let h1 = take-Holds s0 ip no_refs no_locks (begin_op s0) (begin_op-Holds s0 idle) in
    let r1 = update no_refs ip 1 in
    let one : r1 ip ≢ 0 = λ z. absurd (ground (arith, z)) in
    let (s2, run2, h2, n2) = lock-Holds s0 ip r1 no_locks s1 h1 one refl in
    elim (Bool-cases (types ip == t_dir)) [
      | inl is_dir ↦
          let (s3, run3, h3, n3) =
            unlock_put-Holds s0 ip r1 (update no_locks ip true) s2 h2 one (ground arith) in
          failed (some ip) (end_op-Released s0 _ _ s3 h3 (λ x. ground arith) (λ x. ground arith))
            (rw (is_dir, run2, run3) refl) (n3 ∙ n2)
      | inr no_dir ↦
          let s3 = more_links ip s2 in
          let (s4, run4, h4, n4) =
            unlock-Holds s0 ip r1 (update no_locks ip true) s3 (other_links s3.nlink s3.saved h2)
              one (ground arith) in
          let n : s4.nlink ≡ update s0.nlink ip ((s0.nlink ip + 1) % 2 ^ 16) =
            n4 ∙ ap (λ (g : ℕ → ℕ). update g ip ((g ip + 1) % 2 ^ 16)) n2 in
          let b =
            parent-Linked s0 shorts (some ip) ip refl r1 _ s4 h4 n (ground arith)
              (λ x ne. ground arith) (λ x. ground arith) links parent in
          let run : link_inode types links parent (some ip) (begin_op s0)
              ≡ link_parent ip links parent s4 =
            rw (no_dir, run2, run4) refl in
          record {
            s' = b.s';
            released = b.released;
            outcome = elim b.outcome [
              | inl (e, same) ↦ inl (run ∙ e, same)
              | inr (i, e, run', counts) ↦ inr (i, e, run ∙ run', counts)
            ];
          }
    ]
