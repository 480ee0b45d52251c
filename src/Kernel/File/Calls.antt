-- ===== src/Kernel/File/Calls.antt =====
-- `sys_dup`, `sys_close` and `sys_pipe`: none panics, and each keeps every file's count right.
use xv6_tp.Base.{
  ℕ, zero, suc, ◌≡◌, ◌≢◌, ◌<◌, Bool, true, false, Option, none, some, Option-cases, inl, inr,
  if◌then◌else◌, arith, refl, ℤ, pos, negsuc, find_first, find_first_sound, IsFirst, array_index,
}
use xv6_tp.Base.Run.{Run, done}
use xv6_tp.Kernel.Proc.{nproc, nofile}
use xv6_tp.Kernel.File.{Files, set_ofile, filealloc}
use xv6_tp.Kernel.File.Counts.{
  Counted, Balanced, nothing, bump, points, holders, Counted-regroup, holders-pos, install-Counted,
  uninstall-Counted, take_file, taken-Counted, full, taken, filealloc-Filealloc, filedup-Counted,
  fileclose-Counted,
}
use xv6_tp.Kernel.File.Descriptors.{
  argfd, fdalloc, is_free, sys_dup, sys_close, sys_pipe, pipealloc, pipe_second, pipe_pages,
  pipe_end, close_both, install_first, install_second,
}

-- What `fdalloc` may come to.
pub data Fdalloc (me f : ℕ) (s : Files) (out : Option ℕ × Files) : Type 0 where
  no_slot : out ≡ (none, s) → Fdalloc me f s out
  slot :
      (fd : ℕ)
      → fd < nofile
      → s.ofile me fd ≡ none
      → out ≡ (some fd, set_ofile me fd (some f) s)
      → Fdalloc me f s out

is_free-none : (me : ℕ) (s : Files) (fd : ℕ) → is_free me s fd ≡ true → s.ofile me fd ≡ none
is_free-none me s fd e = ground arith

pub fdalloc-Fdalloc : (me f : ℕ) (s : Files) → Fdalloc me f s (fdalloc me f s)
unfolding fdalloc
fdalloc-Fdalloc me f s = elim (Option-cases (find_first (is_free me s) nofile)) [
  | inl out ↦ no_slot (ground arith)
  | inr (i, found) ↦
      let r : IsFirst (is_free me s) 0 nofile i = find_first_sound _ nofile i found in
      slot i r.below (is_free-none me s i r.passes) (ground arith)
]

-- What `argfd` may come to.
pub data Argfd (me : ℕ) (s : Files) (out : Option (ℕ × ℕ)) : Type 0 where
  bad_fd : out ≡ none → Argfd me s out
  open_fd : (fd f : ℕ) → fd < nofile → s.ofile me fd ≡ some f → out ≡ some (fd, f) → Argfd me s out

pub argfd-Argfd : (me : ℕ) (n : ℤ) (s : Files) → Argfd me s (argfd me n s)
unfolding argfd
argfd-Argfd me n s = elim (Option-cases (array_index nofile n)) [
  | inl out ↦ bad_fd (ground arith)
  | inr (fd, found) ↦ elim (Option-cases (s.ofile me fd)) [
    | inl out ↦ bad_fd (ground arith)
    | inr (f, e) ↦ open_fd fd f (index-lt n fd found) e (ground arith)
  ]
]
  where
    index-lt : (n : ℤ) (fd : ℕ) → array_index nofile n ≡ some fd → fd < nofile
    index-lt n fd e = ground arith

-- The call answers, and then every count is right.
abbrev pub Fine : Run (ℤ × Files) → Type 0
Fine r = (out : ℤ × Files) × (r ≡ done out) × Balanced out.1

ref-pos : {s : Files} (f : ℕ) → Balanced s → 0 < holders s f → 0 < (s.file f).ref
ref-pos {s} f b h = omega (arith, b.refs f, h)

pub sys_dup-Fine : (me : ℕ) (n : ℤ) (s : Files) → me < nproc → Balanced s → Fine (sys_dup me n s)
unfolding sys_dup
sys_dup-Fine me n s hm b = elim (argfd-Argfd me n s) [
  | bad_fd e ↦ ((negsuc 0, s), ground (arith, e), b)
  | open_fd fd f hf e o ↦ elim (fdalloc-Fdalloc me f s) [
    | no_slot q ↦ ((negsuc 0, s), ground (arith, o, q), b)
    | slot d hd free q ↦
        let c = install-Counted b f hm hd free in
        let p : 0 < (s.file f).ref = ref-pos f b (holders-pos s me fd f hm hf e) in
        let (t, done_t, ct) = filedup-Counted c f p in
        ((pos d, t), ground (arith, o, q, done_t), Counted-regroup ct (λ g. omega arith))
  ]
]

pub sys_close-Fine :
    (me : ℕ) (n : ℤ) (s : Files) → me < nproc → Balanced s → Fine (sys_close me n s)
unfolding sys_close
sys_close-Fine me n s hm b = elim (argfd-Argfd me n s) [
  | bad_fd e ↦ ((negsuc 0, s), ground (arith, e), b)
  | open_fd fd f hf e o ↦
      let c = uninstall-Counted b hm hf e in
      let p : 0 < (s.file f).ref = ref-pos f b (holders-pos s me fd f hm hf e) in
      let (t, done_t, ct, _) = fileclose-Counted c f p in
      ((pos 0, t), ground (arith, o, done_t), Counted-regroup ct (λ g. omega arith))
]

module _ {owed extra : ℕ → ℕ} {s : Files} (c : Counted owed extra s) where
  -- Closing two files that the caller has a reference of.
  pub close_both-Counted :
      (rf wf : ℕ)
      → rf ≢ wf
      → owed rf < extra rf
      → owed wf < extra wf
      → (t : Files) × (close_both rf wf s ≡ done (negsuc 0, t))
        × Counted (bump (bump owed rf) wf) extra t
  close_both-Counted rf wf ne hr hw =
      let (t, done_t, ct, _) = fileclose-Counted c rf (omega (arith, c.refs rf, hr)) in
      let apart : points (some rf) wf ≡ 0 = ground arith in
      let (u, done_u, cu, _) = fileclose-Counted ct wf (omega (arith, ct.refs wf, hw, apart)) in
      (u, ground (arith, done_t, done_u), cu)

  pub pipe_end-Counted :
      (w : Bool) (pi f : ℕ) → 0 < (s.file f).ref → Counted owed extra (pipe_end w pi f s)
  unfolding holders
  pipe_end-Counted w pi f h = record {
    refs = λ g. ground (arith, c.refs g);
    idle = λ g. ground (arith, c.idle g);
  }

-- What `pipealloc` may come to: nothing, or two files that no descriptor has yet.
pub data Pipealloc (out : Run (Option (ℕ × ℕ) × Files)) : Type 0 where
  no_pipe : (t : Files) → Balanced t → out ≡ done (none, t) → Pipealloc out
  piped :
      (rf wf : ℕ) (t : Files)
      → rf ≢ wf
      → Counted nothing (bump (bump nothing rf) wf) t
      → out ≡ done (some (rf, wf), t)
      → Pipealloc out

pipe_pages-Pipealloc :
    (page f g : ℕ) (t : Files)
    → f ≢ g
    → Counted nothing (bump (bump nothing f) g) t
    → Pipealloc (pipe_pages page f g t)
pipe_pages-Pipealloc zero f g t ne c =
    let (u, done_u, cu, _) = fileclose-Counted c f (ground (arith, c.refs f)) in
    let (v, done_v, cv, _) = fileclose-Counted cu g (ground (arith, cu.refs g)) in
    no_pipe v (Counted-regroup cv (λ g. omega arith)) (ground (arith, done_u, done_v))
pipe_pages-Pipealloc (suc p) f g t ne c =
    let c' = pipe_end-Counted c false (suc p) f (ground (arith, c.refs f)) in
    let c'' = pipe_end-Counted c' true (suc p) g (ground (arith, c'.refs g)) in
    piped f g _ ne c'' refl

pub pipealloc-Pipealloc : (page : ℕ) (s : Files) → Balanced s → Pipealloc (pipealloc page s)
unfolding pipealloc
pipealloc-Pipealloc page s b = elim (filealloc-Filealloc s) [
  | full e ↦ rw e (no_pipe s b refl)
  | taken f lf free e ↦
      let c = taken-Counted b f free in
      let p : Pipealloc (pipe_second page f (filealloc (take_file f s))) =
        elim (filealloc-Filealloc (take_file f s)) [
          | full e' ↦
              let (t, done_t, ct, _) = fileclose-Counted c f (ground arith) in
              let q : Balanced t = Counted-regroup ct (λ g. omega arith) in
              rw e' (no_pipe t q (ground (arith, done_t)))
          | taken g lg free' e' ↦
              let ne : f ≢ g = λ q. ground arith in
              rw e' (pipe_pages-Pipealloc page f g _ ne (taken-Counted c g free'))
        ] in
      rw e p
]

if_Fine : (b : Bool) {x y : Run (ℤ × Files)} → Fine x → Fine y → Fine (if b then x else y)
if_Fine true p q = p
if_Fine false p q = q

-- The ends of a new pipe, `rf` and `wf`, on their way into two descriptors.
module _ {rf wf : ℕ} (ne : rf ≢ wf) where
  abbrev two_ends : ℕ → ℕ
  two_ends = bump (bump nothing rf) wf

  ends_closed : {s : Files} → Counted nothing two_ends s → Fine (close_both rf wf s)
  ends_closed c =
      let (t, done_t, ct) = close_both-Counted c rf wf ne (ground arith) (ground arith) in
      ((negsuc 0, t), done_t, Counted-regroup ct (λ g. omega arith))

  second-Fine :
      (copied : Bool) (me fd0 : ℕ) (s : Files)
      → me < nproc
      → fd0 < nofile
      → s.ofile me fd0 ≡ some rf
      → Counted (bump nothing rf) two_ends s
      → Fine (install_second copied me rf wf fd0 (fdalloc me wf s))
  second-Fine copied me fd0 s hm h0 e c = elim (fdalloc-Fdalloc me wf s) [
    | no_slot q ↦
        let c' = uninstall-Counted c hm h0 e in
        rw q (ends_closed (Counted-regroup c' (λ g. omega arith)))
    | slot fd1 h1 free q ↦
        let c' = install-Counted c wf hm h1 free in
        let apart : fd0 ≢ fd1 = λ p. ground arith in
        let at0 : (set_ofile me fd1 (some wf) s).ofile me fd0 ≡ some rf = ground arith in
        let c0 = uninstall-Counted c' hm h0 at0 in
        let at1 : (set_ofile me fd0 none (set_ofile me fd1 (some wf) s)).ofile me fd1 ≡ some wf =
          ground arith in
        let c1 = uninstall-Counted c0 hm h1 at1 in
        let kept : Fine (done (pos 0, set_ofile me fd1 (some wf) s)) =
          ((pos 0, _), refl, Counted-regroup c' (λ g. omega arith)) in
        rw q (if_Fine copied kept (ends_closed (Counted-regroup c1 (λ g. omega arith))))
  ]

  first-Fine :
      (copied : Bool) (me : ℕ) (s : Files)
      → me < nproc
      → Counted nothing two_ends s
      → Fine (install_first copied me rf wf (fdalloc me rf s))
  first-Fine copied me s hm c = elim (fdalloc-Fdalloc me rf s) [
    | no_slot q ↦ rw q (ends_closed c)
    | slot fd0 h0 free q ↦
        rw q (second-Fine copied me fd0 _ hm h0 (ground arith) (install-Counted c rf hm h0 free))
  ]

pub sys_pipe-Fine :
    (me page : ℕ) (copied : Bool) (s : Files)
    → me < nproc
    → Balanced s
    → Fine (sys_pipe me page copied s)
unfolding sys_pipe
sys_pipe-Fine me page copied s hm b = elim (pipealloc-Pipealloc page s b) [
  | no_pipe t bt e ↦ rw e ((negsuc 0, t), refl, bt)
  | piped rf wf t ne c e ↦ rw e (first-Fine ne copied me t hm c)
]
