-- ===== src/Kernel/File/Counts.antt =====
-- The reference counts of the file table against the descriptors that hold its files.
use xv6_tp.Base.{
  ℕ, zero, suc, ◌+◌, ◌-◌, ◌≡◌, ◌≢◌, ◌<◌, Option, none, some, Bool-cases, Option-cases, inl, inr,
  ◌==◌, if◌then◌else◌, arith, refl, ap, find_first, find_first_sound, IsFirst,
}
use xv6_tp.Base.Run.{done}
use xv6_tp.Kernel.Proc.{nproc, nofile}
use xv6_tp.Kernel.File.{
  fd_none, File, Files, nfile, set_file, set_ofile, filealloc, filedup, fileclose, put_file,
  unreferenced,
}

-- The sum of the first `n` numbers of a family.
unfoldable pub total : (ℕ → ℕ) → ℕ → ℕ
total g zero = 0
total g (suc n) = total g n + g n

total-same : (g h : ℕ → ℕ) (n : ℕ) → ((j : ℕ) → j < n → g j ≡ h j) → total g n ≡ total h n
unfolding total
total-same g h zero e = refl
total-same g h (suc n) e =
    omega (arith, total-same g h n (λ j l. e j (omega arith)), e n (omega arith))

-- Two families that agree but at `i`.
total-differs :
    (g h : ℕ → ℕ) (i n : ℕ)
    → ((j : ℕ) → j ≢ i → g j ≡ h j)
    → i < n
    → total g n + h i ≡ total h n + g i
unfolding total
total-differs g h i zero e l = absurd (omega arith)
total-differs g h i (suc n) e l = elim (Bool-cases (i == n)) [
  | inl last ↦
      let at : i ≡ n = ground arith in
      let r = total-same g h n (λ j b. e j (omega arith)) in ground (arith, r, at)
  | inr not_last ↦
      let ne : n ≢ i = λ q. ground arith in
      omega (arith, total-differs g h i n e (ground arith), e n ne)
]

-- One if the descriptor holds file `f`.
abbrev pub points : Option ℕ → ℕ → ℕ
points none f = 0
points (some g) f = if g == f then 1 else 0

unfoldable pub holders : Files → ℕ → ℕ
holders s f = total (λ me. total (λ fd. points (s.ofile me fd) f) nofile) nproc

set_ofile-holders :
    (s : Files) (me fd : ℕ) (o : Option ℕ) (f : ℕ)
    → me < nproc
    → fd < nofile
    → holders (set_ofile me fd o s) f + points (s.ofile me fd) f ≡ holders s f + points o f
unfolding holders
set_ofile-holders s me fd o f hm hf =
    let t = set_ofile me fd o s in
    let row = λ (r : Files) (p : ℕ). total (λ d. points (r.ofile p d) f) nofile in
    let rows : total (row t) nproc + row s me ≡ total (row s) nproc + row t me =
      total-differs (row t) (row s) me nproc
        (λ j ne.
          total-same (λ d. points (t.ofile j d) f) (λ d. points (s.ofile j d) f) nofile
            (λ d l. ground arith))
        hm in
    let cells : row t me + points (s.ofile me fd) f ≡ row s me + points (t.ofile me fd) f =
      total-differs (λ d. points (t.ofile me d) f) (λ d. points (s.ofile me d) f) fd nofile
        (λ j ne. ground arith) hf in
    let new : points (t.ofile me fd) f ≡ points o f = ground arith in
    omega (arith, rows, cells, new)

-- `owed` references are to be added to a file's count, and `extra` ones of it are in no descriptor.
pub record Counted (owed extra : ℕ → ℕ) (s : Files) : Type 0 where
  pub refs : (f : ℕ) → (s.file f).ref + owed f ≡ holders s f + extra f
  pub idle : (f : ℕ) → (s.file f).ref ≡ 0 → (s.file f).type ≡ fd_none

abbrev pub nothing : ℕ → ℕ
nothing f = 0

abbrev pub bump : (ℕ → ℕ) → ℕ → ℕ → ℕ
bump e f g = e g + points (some f) g

-- Between two calls each count is the number of descriptors that hold the file.
abbrev pub Balanced : Files → Type 0
Balanced s = Counted nothing nothing s

pub Counted-regroup :
    {owed extra owed' extra' : ℕ → ℕ} {s : Files}
    → Counted owed extra s
    → ((f : ℕ) → owed f + extra' f ≡ owed' f + extra f)
    → Counted owed' extra' s
Counted-regroup c e = record { refs = λ f. omega (arith, c.refs f, e f); idle = c.idle }

pub holders-pos :
    (s : Files) (me fd f : ℕ) → me < nproc → fd < nofile → s.ofile me fd ≡ some f → 0 < holders s f
holders-pos s me fd f hm hf e =
    let r = set_ofile-holders s me fd none f hm hf in
    let one : points (s.ofile me fd) f ≡ 1 = ground (arith, e) in omega (arith, r, one)

abbrev pub take_file : ℕ → Files → Files
take_file f s = set_file f (record (s.file f) { ref = 1 }) s

-- What `filealloc` may come to.
pub data Filealloc (s : Files) (out : Option ℕ × Files) : Type 0 where
  full : out ≡ (none, s) → Filealloc s out
  taken : (f : ℕ) → f < nfile → (s.file f).ref ≡ 0 → out ≡ (some f, take_file f s) → Filealloc s out

pub filealloc-Filealloc : (s : Files) → Filealloc s (filealloc s)
unfolding filealloc
filealloc-Filealloc s = elim (Option-cases (find_first (unreferenced s) nfile)) [
  | inl out ↦ full (ground arith)
  | inr (i, found) ↦
      let r : IsFirst (unreferenced s) 0 nfile i = find_first_sound _ nfile i found in
      taken i r.below (ground (arith, r.passes)) (ground arith)
]

abbrev last_close : ℕ → Files → Files
last_close f s =
    put_file (record (s.file f) { ref = 0 })
      (set_file f (record (s.file f) { ref = 0; type = fd_none }) s)

fileclose-last : (f : ℕ) (s : Files) → (s.file f).ref ≡ 1 → fileclose f s ≡ done (last_close f s)
unfolding fileclose
fileclose-last f s e = rw (e, fileclose) refl

fileclose-more :
    (f n : ℕ) (s : Files)
    → (s.file f).ref ≡ suc (suc n)
    → fileclose f s ≡ done (set_file f (record (s.file f) { ref = suc n }) s)
unfolding fileclose
fileclose-more f n s e = rw (e, fileclose) (ground arith)

put_file-ofile : (ff : File) (s : Files) → (put_file ff s).ofile ≡ s.ofile
unfolding put_file
put_file-ofile ff s = ground arith

put_file-file : (ff : File) (s : Files) → (put_file ff s).file ≡ s.file
unfolding put_file
put_file-file ff s = ground arith

pub same-Counted :
    {owed extra : ℕ → ℕ} {s t : Files}
    → Counted owed extra s
    → t.file ≡ s.file
    → t.ofile ≡ s.ofile
    → Counted owed extra t
unfolding holders
same-Counted {owed} {extra} {s} {t} c e o = record {
  refs = λ f.
      let held : holders t f ≡ holders s f =
        ap (λ (h : ℕ → ℕ → Option ℕ). total (λ me. total (λ fd. points (h me fd) f) nofile) nproc)
          o in
      let at : t.file f ≡ s.file f = ap (λ (h : ℕ → File). h f) e in rw (at, held) (c.refs f);
  idle = λ f. let at : t.file f ≡ s.file f = ap (λ (h : ℕ → File). h f) e in rw at (c.idle f);
}

put_file-Counted :
    {owed extra : ℕ → ℕ} {s : Files} (ff : File)
    → Counted owed extra s
    → Counted owed extra (put_file ff s)
put_file-Counted {s = s} ff c = same-Counted c (put_file-file ff s) (put_file-ofile ff s)

module _ {owed extra : ℕ → ℕ} {s : Files} (c : Counted owed extra s) where
  pub install-Counted :
      {me fd : ℕ} (f : ℕ)
      → me < nproc
      → fd < nofile
      → s.ofile me fd ≡ none
      → Counted (bump owed f) extra (set_ofile me fd (some f) s)
  install-Counted {me} {fd} f hm hf e = record {
    refs = λ g.
        let r = set_ofile-holders s me fd (some f) g hm hf in
        let zero_there : points (s.ofile me fd) g ≡ 0 = ground (arith, e) in
        omega (arith, r, zero_there, c.refs g);
    idle = c.idle;
  }

  pub uninstall-Counted :
      {me fd f : ℕ}
      → me < nproc
      → fd < nofile
      → s.ofile me fd ≡ some f
      → Counted owed (bump extra f) (set_ofile me fd none s)
  uninstall-Counted {me} {fd} {f} hm hf e = record {
    refs = λ g.
        let r = set_ofile-holders s me fd none g hm hf in
        let there : points (s.ofile me fd) g ≡ points (some f) g = ground (arith, e) in
        omega (arith, r, there, c.refs g);
    idle = c.idle;
  }

  pub taken-Counted : (f : ℕ) → (s.file f).ref ≡ 0 → Counted owed (bump extra f) (take_file f s)
  unfolding holders
  taken-Counted f e = record {
    refs = λ g. ground (arith, c.refs g, e);
    idle = λ g. ground (arith, c.idle g, c.idle f e);
  }

  pub filedup-Counted :
      (f : ℕ)
      → 0 < (s.file f).ref
      → (t : Files) × (filedup f s ≡ done t) × Counted owed (bump extra f) t
  unfolding filedup holders
  filedup-Counted f h = (
    set_file f (record (s.file f) { ref = (s.file f).ref + 1 }) s,
    ground arith,
    record { refs = λ g. ground (arith, c.refs g); idle = λ g. ground (arith, c.idle g) },
  )

  fewer-Counted :
      (f n : ℕ)
      → (s.file f).ref ≡ suc (suc n)
      → Counted (bump owed f) extra (set_file f (record (s.file f) { ref = suc n }) s)
  unfolding holders
  fewer-Counted f n e = record {
    refs = λ g. ground (arith, c.refs g, e);
    idle = λ g. ground (arith, c.idle g);
  }

  pub last-Counted :
      (f : ℕ)
      → (s.file f).ref ≡ 1
      → Counted (bump owed f) extra (set_file f (record (s.file f) { ref = 0; type = fd_none }) s)
  unfolding holders
  last-Counted f e = record {
    refs = λ g. ground (arith, c.refs g, e);
    idle = λ g. ground (arith, c.idle g);
  }

  pub fileclose-Counted :
      (f : ℕ)
      → 0 < (s.file f).ref
      → (t : Files) × (fileclose f s ≡ done t) × Counted (bump owed f) extra t × (t.ofile ≡ s.ofile)
  fileclose-Counted f h = elim (Bool-cases ((s.file f).ref == 1)) [
    | inl one ↦
        let e : (s.file f).ref ≡ 1 = ground arith in
        let q = last-Counted f e in
        (last_close f s, fileclose-last f s e, put_file-Counted _ q, put_file-ofile _ _)
    | inr many ↦
        let n : ℕ = (s.file f).ref - 2 in
        let e : (s.file f).ref ≡ suc (suc n) = ground arith in
        (_, fileclose-more f n s e, fewer-Counted f n e, refl)
  ]

  -- A file may be set up once it is referenced.
  pub set_up-Counted :
      (f : ℕ) (x : File)
      → x.ref ≡ (s.file f).ref
      → 0 < (s.file f).ref
      → Counted owed extra (set_file f x s)
  unfolding holders
  set_up-Counted f x e h = record {
    refs = λ g. ground (arith, c.refs g, e);
    idle = λ g. ground (arith, c.idle g, e);
  }

-- The last close of a file that was never set up calls nothing.
pub fileclose-idle :
    (f : ℕ) (s : Files)
    → (s.file f).ref ≡ 1
    → (s.file f).type ≡ fd_none
    → fileclose f s ≡ done (set_file f (record (s.file f) { ref = 0; type = fd_none }) s)
unfolding fileclose put_file
fileclose-idle f s e t = ground (arith, e, t)
