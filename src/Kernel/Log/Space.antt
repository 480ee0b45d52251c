-- ===== src/Kernel/Log/Space.antt =====
-- `begin_op`, `log_write` and `end_op`: the space that each system call reserves in the log.
use xv6_tp.Base.{
  ℕ, ◌+◌, ◌*◌, ◌≤◌, ◌<◌, ◌≡◌, ◌≢◌, ◌⊎◌, ◌↔◌, ◌∙◌, ◌==◌, sym, inl, inr, Bool-cases, true, false,
  arith, refl, ◌-◌, none, some, List, [], ◌∷◌, ◌++◌, length, length-append, ap,
}
use xv6_tp.Kernel.Log.{
  log_size_max, max_op_blocks, Log, Machine, log_write, begin_op, end_op_enter, end_op_commit,
  panics, commits, wakes, commit, write_head, write_log, install_trans, clear_header,
}
use xv6_tp.Kernel.Log.Write.{Logged, absorbed, added, log_write-Logged}
use xv6_tp.Kernel.Log.Keeps.{write_head-Later, install_trans-Later, write_log-Later}

-- Running system calls: for each that has begun and not ended, how often it called `log_write`.
pub record Calls : Type 0 where
  pub machine : Machine
  pub used : List ℕ

-- The blocks that the running calls may still log.
abbrev pub reserve : List ℕ → ℕ
reserve [] = 0
reserve (u ∷ us) = max_op_blocks - u + reserve us

reserve-append : (xs ys : List ℕ) → reserve (xs ++ ys) ≡ reserve xs + reserve ys
reserve-append [] ys = omega arith
reserve-append (x ∷ xs) ys = omega (arith, reserve-append xs ys)

-- A call begins, logs a block if it has logged fewer than `MAXOPBLOCKS`, or enters `end_op`. The last
-- one to do so is left to commit, which it does in a step of its own: others may go on in between.
-- A `begin_op` that goes to sleep is no step.
pub data Step (s : Calls) : Calls → Type 0 where
  begin :
      {l : Log}
      → begin_op s.machine.log ≡ some l
      → Step s (record { machine = record (s.machine) { log = l }; used = 0 ∷ s.used })
  write :
      (xs : List ℕ) (u : ℕ) (ys : List ℕ) (b : ℕ) {m : Machine}
      → s.used ≡ xs ++ (u ∷ ys)
      → u < max_op_blocks
      → log_write b s.machine ≡ some m
      → Step s (record { machine = m; used = xs ++ ((u + 1) ∷ ys) })
  leave :
      (xs : List ℕ) (u : ℕ) (ys : List ℕ) {l : Log}
      → s.used ≡ xs ++ (u ∷ ys)
      → end_op_enter s.machine.log ≡ wakes l
      → Step s (record { machine = record (s.machine) { log = l }; used = xs ++ ys })
  last :
      (xs : List ℕ) (u : ℕ) (ys : List ℕ) {l : Log}
      → s.used ≡ xs ++ (u ∷ ys)
      → end_op_enter s.machine.log ≡ commits l
      → Step s (record { machine = record (s.machine) { log = l }; used = xs ++ ys })
  finish : s.machine.log.committing ≡ true → Step s (record s { machine = end_op_commit s.machine })

-- No call runs and the log is empty, as after recovery.
pub record IsFresh (s : Calls) : Type 0 where
  pub none_runs : s.used ≡ []
  pub outstanding : s.machine.log.outstanding ≡ 0
  pub idle : s.machine.log.committing ≡ false
  pub empty : s.machine.log.lh.n ≡ 0

pub data Reach (s : Calls) : Calls → Type 0 where
  here : Reach s s
  next : {t u : Calls} → Reach s t → Step t u → Reach s u

pub record Inv (size : ℕ) (s : Calls) : Type 0 where
  pub size_same : s.machine.log.size ≡ size
  pub counted : s.machine.log.outstanding ≡ length s.used
  pub alone : s.machine.log.committing ≡ true → s.used ≡ []
  pub fits : s.machine.log.lh.n + reserve s.used ≤ log_size_max
  pub empty : s.machine.log.committing ≡ false → s.used ≡ [] → s.machine.log.lh.n ≡ 0

reserve-le : (us : List ℕ) → reserve us ≤ length us * max_op_blocks
reserve-le [] = omega arith
reserve-le (u ∷ us) = omega (arith, reserve-le us)

commit-log :
    (s : Machine)
    → ((commit s).log.lh.n ≡ 0)
      × ((commit s).log.size ≡ s.log.size)
      × ((commit s).log.outstanding ≡ s.log.outstanding)
unfolding commit
commit-log s =
    let t = write_head (write_log s) in
    let u = install_trans false t in
    ground (
      arith,
      (write_head-Later (clear_header u)).log_same,
      (install_trans-Later false t).log_same,
      (write_head-Later (write_log s)).log_same,
      (write_log-Later s).log_same,
    )

-- What the first part of `end_op` comes to: it commits exactly if no call is left.
pub end_op_enter_lem :
    (l : Log)
    → l.committing ≡ false
    → ((end_op_enter l ≡ wakes (record l { outstanding = l.outstanding - 1 }))
        × (l.outstanding - 1 ≢ 0))
      ⊎ ((end_op_enter l
            ≡ commits (record l { outstanding = l.outstanding - 1; committing = true }))
          × (l.outstanding - 1 ≡ 0))
unfolding end_op_enter
end_op_enter_lem l e = elim (Bool-cases (l.outstanding - 1 == 0)) [
  | inl z ↦ inr (rw (e, z) refl, ground (arith, z))
  | inr nz ↦ inl (rw (e, nz) refl, λ z. absurd (ground (arith, z, nz)))
]

length-insert :
    (xs : List ℕ) (u : ℕ) (ys : List ℕ) → length (xs ++ (u ∷ ys)) ≡ length xs + length ys + 1
length-insert xs u ys = omega (arith, length-append xs (u ∷ ys))

begin_op_lem :
    (l : Log) {m : Log}
    → begin_op l ≡ some m
    → (l.lh.n + (l.outstanding + 1) * max_op_blocks ≤ log_size_max)
      × (m ≡ record l { outstanding = l.outstanding + 1 })
      × (l.committing ≡ false)
unfolding begin_op
begin_op_lem l e = ground arith

not-nil : (xs : List ℕ) (u : ℕ) (ys : List ℕ) → xs ++ (u ∷ ys) ≢ []
not-nil [] u ys e = cc
not-nil (x ∷ xs) u ys e = cc

reserve-insert :
    (xs : List ℕ) (u : ℕ) (ys : List ℕ)
    → reserve (xs ++ (u ∷ ys)) ≡ reserve xs + (max_op_blocks - u) + reserve ys
reserve-insert xs u ys = omega (arith, reserve-append xs (u ∷ ys))

length-zero : (us : List ℕ) → length us ≡ 0 → us ≡ []
length-zero [] e = refl
length-zero (u ∷ us) e = absurd (omega arith)

module _ {size : ℕ} {s : Calls} (inv : Inv size s) where
  open inv use {size_same, counted, alone, fits, empty}

  -- A call runs, so nothing is being committed.
  runs-idle :
      (xs : List ℕ) (u : ℕ) (ys : List ℕ)
      → s.used ≡ xs ++ (u ∷ ys)
      → s.machine.log.committing ≡ false
  runs-idle xs u ys e = elim (Bool-cases s.machine.log.committing) [
    | inl c ↦ absurd (not-nil xs u ys (sym e ∙ alone c))
    | inr c ↦ c
  ]

  Logged-Inv :
      (xs : List ℕ) (u : ℕ) (ys : List ℕ) (b : ℕ) {m : Machine}
      → s.used ≡ xs ++ (u ∷ ys)
      → u < max_op_blocks
      → Logged b s.machine m
      → Inv size (record { machine = m; used = xs ++ ((u + 1) ∷ ys) })
  Logged-Inv xs u ys b e lt (absorbed i h hit new) = record {
    size_same = ground arith;
    counted = ground (arith, length-insert xs u ys, length-insert xs (u + 1) ys);
    alone = λ c. absurd (ground (arith, c, runs-idle xs u ys e));
    fits = ground (arith, reserve-insert xs u ys, reserve-insert xs (u + 1) ys);
    empty = λ c z. absurd (not-nil xs (u + 1) ys z);
  }
  Logged-Inv xs u ys b e lt (added out new) = record {
    size_same = ground arith;
    counted = ground (arith, length-insert xs u ys, length-insert xs (u + 1) ys);
    alone = λ c. absurd (ground (arith, c, runs-idle xs u ys e));
    fits = ground (arith, reserve-insert xs u ys, reserve-insert xs (u + 1) ys);
    empty = λ c z. absurd (not-nil xs (u + 1) ys z);
  }

  leave-Inv :
      (xs : List ℕ) (u : ℕ) (ys : List ℕ) {l : Log}
      → s.used ≡ xs ++ (u ∷ ys)
      → end_op_enter s.machine.log ≡ wakes l
      → Inv size (record { machine = record (s.machine) { log = l }; used = xs ++ ys })
  unfolding end_op_enter
  leave-Inv xs u ys {l} e left = record {
    size_same = ground arith;
    counted = counted';
    alone = λ c. absurd (ground (arith, c, runs-idle xs u ys e));
    fits = ground (arith, reserve-insert xs u ys, reserve-append xs ys);
    empty = λ c z. absurd (ground (arith, counted', ap length z));
  }
    where
      counted' : l.outstanding ≡ length (xs ++ ys)
      counted' = ground (arith, ap length e, length-insert xs u ys, length-append xs ys)

  last-Inv :
      (xs : List ℕ) (u : ℕ) (ys : List ℕ) {l : Log}
      → s.used ≡ xs ++ (u ∷ ys)
      → end_op_enter s.machine.log ≡ commits l
      → Inv size (record { machine = record (s.machine) { log = l }; used = xs ++ ys })
  unfolding end_op_enter
  last-Inv xs u ys {l} e left = record {
    size_same = ground arith;
    counted = counted';
    alone = λ c. length-zero (xs ++ ys) (ground (arith, counted'));
    fits = ground (arith, reserve-insert xs u ys, reserve-append xs ys);
    empty = λ c z. absurd (ground (arith, c));
  }
    where
      counted' : l.outstanding ≡ length (xs ++ ys)
      counted' = ground (arith, ap length e, length-insert xs u ys, length-append xs ys)

  commit-Inv :
      s.machine.log.committing ≡ true → Inv size (record s { machine = end_op_commit s.machine })
  unfolding end_op_commit
  commit-Inv c = record {
    size_same = ground (arith, commit-log s.machine);
    counted = ground (arith, commit-log s.machine);
    alone = λ c. absurd (ground (arith, c));
    fits = ground (arith, commit-log s.machine, alone c);
    empty = λ e z. (commit-log s.machine).0;
  }

Step-Inv : {size : ℕ} {s t : Calls} → Inv size s → Step s t → Inv size t
Step-Inv {s} inv (begin {l} e) = record {
  size_same = ground (arith, begin_op_lem s.machine.log e, inv.size_same);
  counted = ground (arith, begin_op_lem s.machine.log e, inv.counted);
  alone = λ c.
      let (room, same, idle) = begin_op_lem s.machine.log e in
      absurd (ground (arith, c, ap (λ (l : Log). l.committing) same, idle));
  fits = ground (arith, begin_op_lem s.machine.log e, inv.counted, reserve-le s.used);
  empty = λ c z. cc;
}
Step-Inv inv (write xs u ys b e lt w) = Logged-Inv inv xs u ys b e lt (log_write-Logged b w)
Step-Inv inv (leave xs u ys e left) = leave-Inv inv xs u ys e left
Step-Inv inv (last xs u ys e left) = last-Inv inv xs u ys e left
Step-Inv inv (finish c) = commit-Inv inv c

pub Reach-Inv : {s t : Calls} → IsFresh s → Reach s t → Inv s.machine.log.size t
Reach-Inv f here = record {
  size_same = refl;
  counted = ground (arith, f.none_runs, f.outstanding);
  alone = λ c. f.none_runs;
  fits = ground (arith, f.none_runs, f.empty);
  empty = λ c z. f.empty;
}
Reach-Inv f (next r st) = Step-Inv (Reach-Inv f r) st

log_write-panics :
    (b : ℕ) (s : Machine)
    → s.log.lh.n < log_size_max
    → log_size_max ≤ s.log.size
    → 0 < s.log.outstanding
    → (log_write b s ≡ none) ↔ ((s.log.size ≡ log_size_max) × (s.log.lh.n + 1 ≡ log_size_max))
unfolding log_write
log_write-panics b s h k o = ((λ e. ground arith), (λ full. ground (arith, full)))

-- From a fresh log of 30 blocks or more, in every state that is reached by calls that begin, log at
-- most `MAXOPBLOCKS` blocks each, and end, also while a call commits: `end_op` of a running call
-- does not find a commit, so it does not panic; and `log_write` of a running call that has logged
-- fewer than `MAXOPBLOCKS` blocks panics exactly if the log has 30 blocks, header included, and 29
-- are logged. While a call commits no other runs.
pub no_overflow :
    {s t : Calls} (xs : List ℕ) (u : ℕ) (ys : List ℕ) (b : ℕ)
    → IsFresh s
    → log_size_max ≤ s.machine.log.size
    → Reach s t
    → t.used ≡ xs ++ (u ∷ ys)
    → u < max_op_blocks
    → (end_op_enter t.machine.log ≢ panics)
      × ((log_write b t.machine ≡ none)
          ↔ ((s.machine.log.size ≡ log_size_max) × (t.machine.log.lh.n + 1 ≡ log_size_max)))
      × (t.machine.log.committing ≡ false)
no_overflow {s} {t} xs u ys b f big r e lt =
    let inv = Reach-Inv f r in
    let idle = runs-idle inv xs u ys e in
    let p =
      log_write-panics b t.machine (ground (arith, inv.fits, reserve-insert xs u ys))
        (ground (arith, big, inv.size_same)) (ground (arith, inv.counted, length-insert xs u ys)) in
    (
      elim (end_op_enter_lem t.machine.log idle) [
        | inl (w, o) ↦ λ z. absurd (ground (arith, w, z))
        | inr (c, o) ↦ λ z. absurd (ground (arith, c, z))
      ],
      ((λ z. (sym inv.size_same ∙ (p.0 z).0, (p.0 z).1)), (λ z. p.1 (inv.size_same ∙ z.0, z.1))),
      idle,
    )
