-- ===== src/Kernel/Proc/Children.antt =====
-- Parents and children: `wait`, `reparent`; and `kill`.
use xv6_tp.Base.{
  ℕ, ◌+◌, ◌≡◌, ◌≢◌, ◌<◌, Bool, true, false, some, Option-cases, inl, inr, ◌==◌, not, ◌&&◌, ltb,
  if◌then◌else◌, arith, refl, negsuc, for_below, for_below_inv, find_first, find_first_sound,
  find_first-none, IsFirst, Bool-cases,
}
use xv6_tp.Kernel.Proc.{zombie, nproc, Kernel, as_int, freeproc}
use xv6_tp.Kernel.Proc.Sched.{wakeup, sleep_on}
use xv6_tp.Kernel.Proc.Life.{
  killed, reparent, reparent_one, wait, WaitTurn, answers, waits, is_child, is_zombie_child,
}

abbrev pub IsChild : ℕ → Kernel → ℕ → Type 0
IsChild me k i = (k.proc i).parent ≡ some me

is_child_sound : (me : ℕ) (k : Kernel) (i : ℕ) → is_child me k i ≡ true → IsChild me k i
is_child_sound me k i e = ground arith

is_child-not : (me : ℕ) (k : Kernel) (i : ℕ) → is_child me k i ≡ false → (k.proc i).parent ≢ some me
is_child-not me k i e f = ground arith

-- What a turn of `wait` may come to.
pub data Waited (adr : ℕ → ℕ) (to_user copied : Bool) (me : ℕ) (k : Kernel)
    : WaitTurn → Type 0 where
  reaped :
      (i : ℕ)
      → i < nproc
      → IsChild me k i
      → (k.proc i).state ≡ zombie
      → {t : WaitTurn} → t ≡ answers (as_int (k.proc i).pid) (freeproc i k)
      → Waited adr to_user copied me k t
  bad_address :
      (i : ℕ)
      → i < nproc
      → IsChild me k i
      → (k.proc i).state ≡ zombie
      → (to_user ≡ true) × (copied ≡ false)
      → {t : WaitTurn} → t ≡ answers (negsuc 0) k
      → Waited adr to_user copied me k t
  childless :
      ((i : ℕ) → i < nproc → (k.proc i).parent ≢ some me)
      → {t : WaitTurn} → t ≡ answers (negsuc 0) k
      → Waited adr to_user copied me k t
  was_killed :
      (killed me k ≡ true)
      → ((i : ℕ) → i < nproc → IsChild me k i → (k.proc i).state ≢ zombie)
      → {t : WaitTurn} → t ≡ answers (negsuc 0) k
      → Waited adr to_user copied me k t
  asleep :
      (i : ℕ)
      → i < nproc
      → IsChild me k i
      → ((j : ℕ) → j < nproc → IsChild me k j → (k.proc j).state ≢ zombie)
      → (killed me k ≡ false)
      → {t : WaitTurn} → t ≡ waits (sleep_on me (adr me) k)
      → Waited adr to_user copied me k t

-- `wait` frees a child that has exited and answers its pid; it answers -1 and changes nothing if
-- there is no child, if `copyout` fails, or if the caller is killed and no child has exited;
-- otherwise it sleeps, and then some child lives and none has exited.
pub wait-Waited :
    (adr : ℕ → ℕ) (to_user copied : Bool) (me : ℕ) (k : Kernel)
    → Waited adr to_user copied me k (wait adr to_user copied me k)
unfolding wait
wait-Waited adr to_user copied me k =
    elim (Option-cases (find_first (is_zombie_child me k) nproc)) [
      | inr (i, found) ↦
          let r : IsFirst (is_zombie_child me k) 0 nproc i = find_first_sound _ nproc i found in
          let mine : IsChild me k i = ground (arith, r.passes) in
          let dead : (k.proc i).state ≡ zombie = ground (arith, r.passes) in
          elim (Bool-cases (to_user && not copied)) [
            | inl bad ↦ bad_address i r.below mine dead (ground arith) (ground arith)
            | inr good ↦ reaped i r.below mine dead (ground arith)
          ]
      | inl no_zombie ↦
          let living : (j : ℕ) → j < nproc → IsChild me k j → (k.proc j).state ≢ zombie =
            λ j h c z. ground (arith, find_first-none (is_zombie_child me k) nproc no_zombie j h) in
          elim (Option-cases (find_first (is_child me k) nproc)) [
            | inl no_child ↦
                childless
                  (λ j h. is_child-not me k j (find_first-none (is_child me k) nproc no_child j h))
                  (ground arith)
            | inr (i, found) ↦
                let r : IsFirst (is_child me k) 0 nproc i = find_first_sound _ nproc i found in
                let mine : IsChild me k i = is_child_sound me k i r.passes in
                elim (Bool-cases (killed me k)) [
                  | inl dead ↦ was_killed dead living (ground arith)
                  | inr lives ↦ asleep i r.below mine living lives (ground arith)
                ]
          ]
    ]

reparent_one-parent :
    (me : ℕ) (adr : ℕ → ℕ) (j : ℕ) (k : Kernel) (i : ℕ)
    → (((reparent_one me adr j k).proc i).parent
        ≡ (if i == j && is_child me k i then some k.initproc else (k.proc i).parent))
      × ((reparent_one me adr j k).initproc ≡ k.initproc)
unfolding reparent_one wakeup
reparent_one-parent me adr j k i = ground arith

-- After `j` rounds.
record Moved (me : ℕ) (k : Kernel) (j : ℕ) (t : Kernel) : Type 0 where
  init_same : t.initproc ≡ k.initproc
  before :
      (i : ℕ)
      → i < j
      → (t.proc i).parent ≡ (if is_child me k i then some k.initproc else (k.proc i).parent)
  after : (i : ℕ) → j < i + 1 → (t.proc i).parent ≡ (k.proc i).parent

-- `reparent` gives every child of the caller to `initproc`, and leaves every other process its
-- parent.
pub reparent-parent :
    (me : ℕ) (adr : ℕ → ℕ) (k : Kernel) (i : ℕ)
    → i < nproc
    → ((reparent me adr k).proc i).parent
      ≡ (if is_child me k i then some k.initproc else (k.proc i).parent)
unfolding reparent
reparent-parent me adr k i lt = all.before i lt
  where
    step :
        (j : ℕ) (t : Kernel)
        → j < nproc
        → Moved me k j t
        → Moved me k (j + 1) (reparent_one me adr j t)
    step j t lt m = record {
      init_same = ground (arith, reparent_one-parent me adr j t j, m.init_same);
      before = λ i h. elim (Bool-cases (ltb i j)) [
        | inl lo ↦ ground (arith, reparent_one-parent me adr j t i, m.before i, m.init_same)
        | inr hi ↦ ground (arith, reparent_one-parent me adr j t i, m.after i, m.init_same)
      ];
      after = λ i h. ground (arith, reparent_one-parent me adr j t i, m.after i);
    }

    all : Moved me k nproc (for_below (reparent_one me adr) nproc k)
    all =
        for_below_inv (reparent_one me adr) (Moved me k) nproc k step
          (record { init_same = refl; before = λ i h. absurd (omega arith); after = λ i h. refl })
