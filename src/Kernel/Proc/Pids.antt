-- ===== src/Kernel/Proc/Pids.antt =====
-- Process ids: every live process has its own, and an unused slot has none.
use mathlib.Core.Path.{subst}
use xv6_tp.Base.{ℕ, ◌≡◌, ◌≢◌, ◌<◌, ◌∙◌, none, some, arith, refl, ℤ, for_below, for_below_inv}
use xv6_tp.Kernel.Proc.{
  unused, zombie, nproc, nofile, Proc, Kernel, set_proc, log_event, freeproc, begin_op, end_op,
}
use xv6_tp.Kernel.Proc.Sched.{wakeup}
use xv6_tp.Kernel.Proc.Life.{kill, setkilled, exit, close_one, put_cwd, reparent, reparent_one}

pub record IsValid (k : Kernel) : Type 0 where
  pub next_pos : 0 < k.nextpid
  pub free : (i : ℕ) → (k.proc i).state ≡ unused → (k.proc i).pid ≡ 0
  pub live :
      (i : ℕ) → (k.proc i).state ≢ unused → (0 < (k.proc i).pid) × ((k.proc i).pid < k.nextpid)
  pub unique : (i j : ℕ) → 0 < (k.proc i).pid → (k.proc i).pid ≡ (k.proc j).pid → i ≡ j

-- The same pids in the same slots, and the same slots in use.
pub record SamePids (k k' : Kernel) : Type 0 where
  pub next_same : k'.nextpid ≡ k.nextpid
  pub pid_same : (i : ℕ) → (k'.proc i).pid ≡ (k.proc i).pid
  pub unused_same : (i : ℕ) → (k'.proc i).state ≡ unused → (k.proc i).state ≡ unused
  pub used_same : (i : ℕ) → (k.proc i).state ≡ unused → (k'.proc i).state ≡ unused

pub SamePids-refl : (k : Kernel) → SamePids k k
SamePids-refl k = record {
  next_same = refl;
  pid_same = λ i. refl;
  unused_same = λ i e. e;
  used_same = λ i e. e;
}

pub SamePids-trans : {k l m : Kernel} → SamePids k l → SamePids l m → SamePids k m
SamePids-trans a b = record {
  next_same = b.next_same ∙ a.next_same;
  pid_same = λ i. b.pid_same i ∙ a.pid_same i;
  unused_same = λ i e. a.unused_same i (b.unused_same i e);
  used_same = λ i e. b.used_same i (a.used_same i e);
}

pub SamePids-IsValid : {k k' : Kernel} → SamePids k k' → IsValid k → IsValid k'
SamePids-IsValid s v = record {
  next_pos = omega (arith, s.next_same, v.next_pos);
  free = λ i e. s.pid_same i ∙ v.free i (s.unused_same i e);
  live = λ i e.
      let l = v.live i (λ u. e (s.used_same i u)) in ground (arith, s.pid_same i, s.next_same, l);
  unique = λ i j h e.
      v.unique i j (ground (arith, s.pid_same i)) (ground (arith, s.pid_same i, s.pid_same j));
}

pub wakeup-SamePids : (me chan : ℕ) (k : Kernel) → SamePids k (wakeup me chan k)
unfolding wakeup
wakeup-SamePids me chan k = record {
  next_same = refl;
  pid_same = λ i. ground arith;
  unused_same = λ i e. ground arith;
  used_same = λ i e. ground arith;
}

pub kill-SamePids : (pid : ℕ) (k : Kernel) → SamePids k (kill pid k).1
unfolding kill
kill-SamePids pid k = record {
  next_same = ground arith;
  pid_same = λ i. ground arith;
  unused_same = λ i e. ground arith;
  used_same = λ i e. ground arith;
}

pub setkilled-SamePids : (j : ℕ) (k : Kernel) → SamePids k (setkilled j k)
unfolding setkilled
setkilled-SamePids j k = record {
  next_same = refl;
  pid_same = λ i. ground arith;
  unused_same = λ i e. ground arith;
  used_same = λ i e. ground arith;
}

-- A new state of a slot that is in use, the pid kept.
pub set-SamePids :
    (k : Kernel) (j : ℕ) (p : Proc)
    → p.pid ≡ (k.proc j).pid
    → p.state ≢ unused
    → (k.proc j).state ≢ unused
    → SamePids k (set_proc k j p)
set-SamePids k j p e live live' = record {
  next_same = refl;
  pid_same = λ i. ground arith;
  unused_same = λ i u. ground arith;
  used_same = λ i u. ground arith;
}

reparent_one-SamePids :
    (me : ℕ) (adr : ℕ → ℕ) (j : ℕ) (k : Kernel) → SamePids k (reparent_one me adr j k)
unfolding reparent_one wakeup
reparent_one-SamePids me adr j k = record {
  next_same = ground arith;
  pid_same = λ i. ground arith;
  unused_same = λ i e. ground arith;
  used_same = λ i e. ground arith;
}

reparent-SamePids : (me : ℕ) (adr : ℕ → ℕ) (k : Kernel) → SamePids k (reparent me adr k)
unfolding reparent
reparent-SamePids me adr k =
    for_below_inv (reparent_one me adr) (λ _ t. SamePids k t) nproc k
      (λ j t lt h. SamePids-trans h (reparent_one-SamePids me adr j t)) (SamePids-refl k)

close_one-SamePids : (me fd : ℕ) (k : Kernel) → SamePids k (close_one me fd k)
unfolding close_one
close_one-SamePids me fd k = record {
  next_same = ground arith;
  pid_same = λ i. ground arith;
  unused_same = λ i e. ground arith;
  used_same = λ i e. ground arith;
}

put_cwd-SamePids :
    (me : ℕ) (k : Kernel) → SamePids k (log_event end_op (put_cwd me (log_event begin_op k)))
unfolding put_cwd
put_cwd-SamePids me k = record {
  next_same = ground arith;
  pid_same = λ i. ground arith;
  unused_same = λ i e. ground arith;
  used_same = λ i e. ground arith;
}

-- The stages of `exit` before the process becomes a zombie.
pub exit-SamePids :
    (adr : ℕ → ℕ) (me : ℕ) (status : ℤ) (k : Kernel) {k' : Kernel}
    → (k.proc me).state ≢ unused
    → exit adr me status k ≡ some k'
    → SamePids k k'
unfolding exit
exit-SamePids adr me status k {k'} live e =
    let k1 = for_below (close_one me) nofile k in
    let closed : SamePids k k1 =
      for_below_inv (close_one me) (λ _ t. SamePids k t) nofile k
        (λ fd t lt h. SamePids-trans h (close_one-SamePids me fd t)) (SamePids-refl k) in
    let k2 = log_event end_op (put_cwd me (log_event begin_op k1)) in
    let k3 = reparent me adr k2 in
    let chan : ℕ = elim (k3.proc me).parent [ none ↦ 0 | some q ↦ adr q ] in
    let k4 = wakeup me chan k3 in
    let before : SamePids k k4 =
      SamePids-trans (SamePids-trans closed (put_cwd-SamePids me k1))
        (SamePids-trans (reparent-SamePids me adr k2) (wakeup-SamePids me chan k3)) in
    let end : Kernel = set_proc k4 me (record (k4.proc me) { xstate = status; state = zombie }) in
    let last : SamePids k end =
      SamePids-trans before
        (set-SamePids k4 me _ refl (λ z. cc) (λ z. live (before.unused_same me z))) in
    let same : end ≡ k' = ground arith in subst (SamePids k) same last

pub freeproc-IsValid : (i : ℕ) (k : Kernel) → IsValid k → IsValid (freeproc i k)
unfolding freeproc
freeproc-IsValid i k v = record {
  next_pos = ground (arith, v.next_pos);
  free = λ j e. ground (arith, v.free j);
  live = λ j e. ground (arith, v.live j);
  unique = λ a b h e. ground (arith, v.unique a b, v.live a, v.live b);
}
