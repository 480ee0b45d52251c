-- ===== src/Kernel/File/Opened.antt =====
-- `sys_open`: the reference counts, and the transactions it leaves open.
use xv6_tp.Base.{
  ℕ, ◌+◌, ◌≡◌, ◌<◌, Bool, true, false, not, ◌&&◌, ◌||◌, Option, none, some, Bool-cases, inl, inr,
  List, [], ◌∷◌, ◌++◌, ◌==◌, if◌then◌else◌, arith, refl, ℤ, pos, negsuc,
}
use xv6_tp.Base.Run.{Run, done}
use xv6_tp.Kernel.Proc.{nproc}
use xv6_tp.Kernel.File.{
  File, Files, fd_none, fd_inode, fd_device, Call, begin_op, end_op, namei, create, ilock, iunlock,
  iunlockput, itrunc, set_file, set_ofile, calls_of, filealloc,
}
use xv6_tp.Kernel.File.Counts.{
  Counted, Balanced, Counted-regroup, install-Counted, take_file, taken-Counted, full, taken,
  filealloc-Filealloc, same-Counted, last-Counted, set_up-Counted, fileclose-idle,
}
use xv6_tp.Kernel.File.Descriptors.{fdalloc}
use xv6_tp.Kernel.File.Calls.{no_slot, slot, fdalloc-Fdalloc}
use xv6_tp.Kernel.File.Transfer.{Inode, s_irusr, s_iwusr, t_dir}
use xv6_tp.Kernel.File.Open.{
  o_rdonly, o_wronly, o_rdwr, o_create, o_trunc, t_file, t_device, has, fails_with, opened, open_fd,
  open_file, bad_device, refused, open_inode, open_created, open_named, sys_open,
}

unfoldable pub begins : List Call → ℕ
begins [] = 0
begins (begin_op ∷ l) = begins l + 1
begins (_ ∷ l) = begins l

unfoldable pub ends : List Call → ℕ
ends [] = 0
ends (end_op ∷ l) = ends l + 1
ends (_ ∷ l) = ends l

begins-++ : (l m : List Call) → begins (l ++ m) ≡ begins l + begins m
unfolding begins
begins-++ [] m = omega arith
begins-++ (begin_op ∷ l) m = omega (arith, begins-++ l m)
begins-++ (_ ∷ l) m = begins-++ l m

ends-++ : (l m : List Call) → ends (l ++ m) ≡ ends l + ends m
unfolding ends
ends-++ [] m = omega arith
ends-++ (end_op ∷ l) m = omega (arith, ends-++ l m)
ends-++ (_ ∷ l) m = ends-++ l m

-- The calls so far began `n` transactions more than they ended.
pub record Pending (n : ℕ) (s : Files) : Type 0 where
  pub ledger : begins s.calls ≡ ends s.calls + n

-- The call answers; then every count is right and `n` transactions are open.
abbrev pub Leaves : ℕ → Run (ℤ × Files) → Type 0
Leaves n r = (out : ℤ × Files) × (r ≡ done out) × Balanced out.1 × Pending n out.1

calls-Pending :
    {n n' : ℕ} {s : Files} (l : List Call)
    → Pending n s
    → n + begins l ≡ ends l + n'
    → Pending n' (calls_of l s)
calls-Pending {s = s} l p e = record {
  ledger = omega (arith, begins-++ s.calls l, ends-++ s.calls l, p.ledger, e);
}

calls-Counted :
    {owed extra : ℕ → ℕ} {s : Files} (l : List Call)
    → Counted owed extra s
    → Counted owed extra (calls_of l s)
calls-Counted l c = same-Counted c refl refl

fails-Leaves :
    {n n' : ℕ} {s : Files} (l : List Call)
    → Balanced s
    → Pending n s
    → n + begins l ≡ ends l + n'
    → Leaves n' (fails_with l s)
fails-Leaves l b p e = (_, refl, calls-Counted l b, calls-Pending l p e)

if_Leaves :
    {n : ℕ} (t : Bool) {x y : Run (ℤ × Files)}
    → (t ≡ true → Leaves n x)
    → (t ≡ false → Leaves n y)
    → Leaves n (if t then x else y)
if_Leaves true p q = p refl
if_Leaves false p q = q refl

-- The last part of `sys_open`.
opened-Leaves :
    (omode ip : ℕ) (node : Inode) (f fd : ℕ) (s : Files) (n : ℕ)
    → Balanced s
    → 0 < (s.file f).ref
    → Pending (n + 1) s
    → Leaves n (done (opened omode ip node f fd s))
unfolding begins ends
opened-Leaves omode ip node f fd s n b h p =
    let x = s.file f in
    let x' : File =
      if node.type == t_device
      then record x { type = fd_device; major = node.major }
      else record x { type = fd_inode; off = 0 } in
    let y : File = record x' {
      ip = some ip;
      readable = not (has omode o_wronly);
      writable = has omode o_wronly || has omode o_rdwr;
    } in
    let same : y.ref ≡ (s.file f).ref = if_ref (node.type == t_device) _ _ x.ref refl refl in
    let c : Balanced (set_file f y s) = set_up-Counted b f y same h in
    let q : Pending (n + 1) (set_file f y s) = record { ledger = p.ledger } in
    last (has omode o_trunc && (node.type == t_file)) (set_file f y s) c q
  where
    if_ref : (t : Bool) (x y : File) (r : ℕ) → x.ref ≡ r → y.ref ≡ r → (if t then x else y).ref ≡ r
    if_ref true x y r p q = p
    if_ref false x y r p q = q

    last :
        (t : Bool) (s : Files)
        → Balanced s
        → Pending (n + 1) s
        → Leaves n (
            done (
              pos fd,
              calls_of (iunlock ip ∷ end_op ∷ []) (if t then calls_of (itrunc ip ∷ []) s else s),
            ))
    last true s b p = (
      _,
      refl,
      calls-Counted (iunlock ip ∷ end_op ∷ []) (calls-Counted (itrunc ip ∷ []) b),
      calls-Pending {n = n + 1} (iunlock ip ∷ end_op ∷ [])
          (calls-Pending {n = n + 1} (itrunc ip ∷ []) p (omega arith)) (omega arith),
    )
    last false s b p = (
      _,
      refl,
      calls-Counted (iunlock ip ∷ end_op ∷ []) b,
      calls-Pending (iunlock ip ∷ end_op ∷ []) p (omega arith),
    )

open_file-Leaves :
    (omode ip : ℕ) (node : Inode) (me : ℕ) (s : Files) (n : ℕ)
    → me < nproc
    → Balanced s
    → Pending (n + 1) s
    → Leaves n (open_file omode ip node me (filealloc s))
unfolding begins ends
open_file-Leaves omode ip node me s n hm b p = elim (filealloc-Filealloc s) [
  | full e ↦ rw e (fails-Leaves (iunlockput ip ∷ end_op ∷ []) b p (omega arith))
  | taken f lf free e ↦
      let c = taken-Counted b f free in
      let num : n + 1 + begins (iunlockput ip ∷ end_op ∷ [])
          ≡ ends (iunlockput ip ∷ end_op ∷ []) + n =
        omega arith in
      let one : ((take_file f s).file f).ref ≡ 1 = ground arith in
      let idle : ((take_file f s).file f).type ≡ fd_none = ground (arith, b.idle f free) in
      let r : Leaves n (open_fd omode ip node f (fdalloc me f (take_file f s))) =
        elim (fdalloc-Fdalloc me f (take_file f s)) [
          | no_slot e' ↦
              let closed = fileclose-idle f (take_file f s) one idle in
              let t : Files =
                set_file f (record ((take_file f s).file f) { ref = 0; type = fd_none })
                  (take_file f s) in
              let c' : Balanced t = Counted-regroup (last-Counted c f one) (λ g. omega arith) in
              let q' : Pending (n + 1) t = record { ledger = p.ledger } in
              rw (e', closed) (fails-Leaves (iunlockput ip ∷ end_op ∷ []) c' q' num)
          | slot fd hf e0 e' ↦
              let t : Files = set_ofile me fd (some f) (take_file f s) in
              let c' : Balanced t =
                Counted-regroup (install-Counted c f hm hf e0) (λ g. omega arith) in
              let q' : Pending (n + 1) t = record { ledger = p.ledger } in
              rw e' (opened-Leaves omode ip node f fd t n c' (omega (arith, one)) q')
        ] in
      rw e r
]

-- The inode is there and the flags ask for what its mode does not allow: `sys_open` answers -1
-- between `begin_op` and `end_op`.
abbrev pub leaks_at : (omode : ℕ) → Inode → Bool
leaks_at omode node =
    not (bad_device node)
    && (refused omode o_rdonly s_irusr node || refused omode o_wronly s_iwusr node)

abbrev pub one_if : Bool → ℕ
one_if true = 1
one_if false = 0

open_inode-Leaves :
    (omode ip : ℕ) (node : Inode) (me : ℕ) (s : Files) (n : ℕ)
    → me < nproc
    → Balanced s
    → Pending (n + 1) s
    → Leaves (n + one_if (leaks_at omode node)) (open_inode omode ip node me s)
unfolding begins ends
open_inode-Leaves omode ip node me s n hm b p =
    let kept : n + 1 + begins (iunlockput ip ∷ []) ≡ ends (iunlockput ip ∷ []) + (n + 1) =
      omega arith in
    elim (Bool-cases (bad_device node)) [
      | inl bad ↦ rw bad (fails-Leaves (iunlockput ip ∷ end_op ∷ []) b p (omega arith))
      | inr good ↦ elim (Bool-cases (refused omode o_rdonly s_irusr node)) [
        | inl no_read ↦ rw (good, no_read) (fails-Leaves (iunlockput ip ∷ []) b p kept)
        | inr read ↦ elim (Bool-cases (refused omode o_wronly s_iwusr node)) [
          | inl no_write ↦ rw (good, read, no_write) (fails-Leaves (iunlockput ip ∷ []) b p kept)
          | inr write ↦
              let p' : Pending (n + 0 + 1) s = record { ledger = omega (arith, p.ledger) } in
              rw (good, read, write) (open_file-Leaves omode ip node me s (n + 0) hm b p')
        ]
      ]
    ]

-- `namei` found a directory and the flags ask for more than reading.
abbrev pub bad_dir : (omode : ℕ) → Inode → Bool
bad_dir omode node = (node.type == t_dir) && not (omode == o_rdonly)

-- `sys_open` ends no transaction.
abbrev pub leaks : (inode : ℕ → Inode) (path : Bool) (found : Option ℕ) (omode : ℕ) → Bool
leaks inode path none omode = false
leaks inode path (some ip) omode =
    path && (has omode o_create || not (bad_dir omode (inode ip))) && leaks_at omode (inode ip)

begun :
    {n : ℕ} {s : Files} (c : Call)
    → begins (begin_op ∷ c ∷ []) ≡ 1
    → ends (begin_op ∷ c ∷ []) ≡ 0
    → Pending n s
    → Pending (n + 1) (calls_of (begin_op ∷ c ∷ []) s)
begun c one no_end p = calls-Pending (begin_op ∷ c ∷ []) p (omega (arith, one, no_end))

created-Leaves :
    (inode : ℕ → Inode) (found : Option ℕ) (me omode : ℕ) (s : Files) (n : ℕ)
    → me < nproc
    → has omode o_create ≡ true
    → Balanced s
    → Pending (n + 1) s
    → Leaves (n + one_if (leaks inode true found omode)) (open_created omode inode me found s)
unfolding begins ends
created-Leaves inode none me omode s n hm e b p = fails-Leaves (end_op ∷ []) b p (omega arith)
created-Leaves inode (some ip) me omode s n hm e b p =
    rw e (open_inode-Leaves omode ip (inode ip) me s n hm b p)

named-Leaves :
    (inode : ℕ → Inode) (found : Option ℕ) (me omode : ℕ) (s : Files) (n : ℕ)
    → me < nproc
    → has omode o_create ≡ false
    → Balanced s
    → Pending (n + 1) s
    → Leaves (n + one_if (leaks inode true found omode)) (open_named omode inode me found s)
unfolding begins ends
named-Leaves inode none me omode s n hm e b p = fails-Leaves (end_op ∷ []) b p (omega arith)
named-Leaves inode (some ip) me omode s n hm e b p =
    let b' : Balanced (calls_of (ilock ip ∷ []) s) = calls-Counted (ilock ip ∷ []) b in
    let p' : Pending (n + 1) (calls_of (ilock ip ∷ []) s) =
      calls-Pending (ilock ip ∷ []) p (omega arith) in
    let ended : n + 1 + begins (iunlockput ip ∷ end_op ∷ [])
        ≡ ends (iunlockput ip ∷ end_op ∷ []) + (n + 0) =
      omega arith in
    elim (Bool-cases (bad_dir omode (inode ip))) [
      | inl bad ↦ rw (e, bad) (fails-Leaves (iunlockput ip ∷ end_op ∷ []) b' p' ended)
      | inr good ↦ rw (e, good) (open_inode-Leaves omode ip (inode ip) me _ n hm b' p')
    ]

-- `sys_open` never panics and keeps every file's count right, and it ends each transaction that it
-- begins, but in one case (`leaks`): it refuses a flag for which the inode's mode lacks the bit. Then
-- one more transaction is open after the call than before it.
pub sys_open-Leaves :
    (inode : ℕ → Inode) (path : Bool) (found : Option ℕ) (me omode : ℕ) (s : Files) (n : ℕ)
    → me < nproc
    → Balanced s
    → Pending n s
    → Leaves (n + one_if (leaks inode path found omode)) (sys_open inode path found me omode s)
unfolding sys_open begins ends
sys_open-Leaves inode false none me omode s n hm b p =
    ((negsuc 0, s), refl, b, record { ledger = omega (arith, p.ledger) })
sys_open-Leaves inode false (some ip) me omode s n hm b p =
    ((negsuc 0, s), refl, b, record { ledger = omega (arith, p.ledger) })
sys_open-Leaves inode true found me omode s n hm b p = elim (Bool-cases (has omode o_create)) [
  | inl makes ↦
      let q = begun create (omega arith) (omega arith) p in
      rw makes (
        created-Leaves inode found me omode _ n hm makes (calls-Counted (begin_op ∷ create ∷ []) b)
          q)
  | inr finds ↦
      let q = begun namei (omega arith) (omega arith) p in
      rw finds
        (named-Leaves inode found me omode _ n hm finds (calls-Counted (begin_op ∷ namei ∷ []) b) q)
]
