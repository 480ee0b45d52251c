-- ===== src/Kernel/Log/Commit.antt =====
-- `commit` is atomic with respect to crashes.
use xv6_tp.Base.{
  ℕ, zero, suc, ◌+◌, ◌≤◌, ◌<◌, ◌≡◌, ◌⊎◌, inl, inr, false, arith, refl, ltb, ◌∙◌, sym, ap,
  Bool-cases,
}
use mathlib.Core.Path.{subst}
use xv6_tp.Kernel.Log.{
  Block, log_size_max, Machine, write_log, write_head, bwrite, install_trans, clear_header, commit,
  recover_from_log,
}
use xv6_tp.Kernel.Log.Stands.{Stands, InPlace, Stands-of_empty}
use xv6_tp.Kernel.Log.Install.{Committed, install_clear-Cleared}
use xv6_tp.Kernel.Log.Copy.{Ready, Copied, write_log-Copied}
use xv6_tp.Kernel.Log.Keeps.{write_head-Later, install_clear-off, commit-start, recover-start}
use xv6_tp.Kernel.Log.Recovery.{reboot, recover-Stands, recover-InPlace}

module _ {s t : Machine} (ready : Ready s) (c : Copied s s.log.lh.n t) where
  -- Without power for the header nothing has happened yet.
  write_head-old : t.power ≡ 0 → Stands s.log.start s.disk t.disk
  write_head-old e =
      Stands-of_empty (ap (λ (b : Block). b 0) c.head ∙ ready.empty) (λ b h. c.home_disk b h)

  -- The header's write commits.
  write_head-Committed : 0 < t.power → Committed s.cache s.log (write_head t)
  unfolding write_head bwrite
  write_head-Committed pw = record {
    log_same = ground (arith, c.log_same);
    few = ready.few;
    home = ready.home;
    count = ground (arith, c.log_same);
    heads = λ i h. ground (arith, c.log_same);
    copies = λ i h. go i h c.done;
    buffers = λ i h. ground (arith, c.log_same, c.buffers i h);
    rest = λ b h out. ground (arith, c.log_same, c.home_disk b h, ready.clean b h out);
  }
    where
      go :
          (i : ℕ)
          → i < s.log.lh.n
          → (t.power ≡ 0)
            ⊎ ((k : ℕ) → k < s.log.lh.n → t.disk (s.log.start + k + 1) ≡ s.cache (s.log.lh.block k))
          → (write_head t).disk (s.log.start + i + 1) ≡ s.cache (s.log.lh.block i)
      go i h (inl z) = absurd (omega arith)
      go i h (inr d) = ground (arith, c.log_same, d i h)

  write_head-power : t.power ≤ (write_head t).power + 1
  unfolding write_head bwrite
  write_head-power = ground arith

-- The part of `commit` after `write_log`.
finish : Machine → Machine
finish t = write_head (clear_header (install_trans false (write_head t)))

module _ {s : Machine} (ready : Ready s) where
  copied : Copied s s.log.lh.n (write_log s)
  copied = write_log-Copied ready

  finish-Stands :
      (k : ℕ)
      → (write_log s).power ≡ k
      → Stands s.log.start s.disk (finish (write_log s)).disk
        ⊎ Stands s.log.start s.cache (finish (write_log s)).disk
  unfolding finish
  finish-Stands zero e =
      let (off, same) = (write_head-Later (write_log s)).off e in
      inl (
        subst (Stands s.log.start s.disk)
          (sym (install_clear-off false (write_head (write_log s)) off ∙ same))
          (write_head-old ready copied e))
  finish-Stands (suc k) e =
      inr
        (install_clear-Cleared {q = 0} false (write_head-Committed ready copied (omega arith))
          (omega arith)).stands

  finish-InPlace :
      s.log.lh.n + s.log.lh.n + 1 < s.power
      → ((finish (write_log s)).disk s.log.start 0 ≡ 0)
        × InPlace s.log.start s.cache (finish (write_log s)).disk
  unfolding finish
  finish-InPlace h =
      (install_clear-Cleared {q = s.log.lh.n + 1} false
          (write_head-Committed ready copied (omega (arith, copied.spent)))
          (omega (arith, copied.spent, write_head-power ready copied))).finished
        (omega arith)

  -- Whatever the number of disk writes that `commit` manages before the power fails, the disk
  -- stands for all the blocks as they were before the transaction, or for all of them as the
  -- transaction left them.
  pub commit-Stands :
      Stands s.log.start s.disk (commit s).disk ⊎ Stands s.log.start s.cache (commit s).disk
  unfolding commit finish
  commit-Stands = elim (Bool-cases (ltb 0 s.log.lh.n)) [
    | inl some_blocks ↦ rw some_blocks (finish-Stands (write_log s).power refl)
    | inr no_blocks ↦ rw no_blocks (inl (Stands-of_empty ready.empty (λ b h. refl)))
  ]

  -- For a transaction of `n` blocks that is ready to commit, and power for 2 n + 2 disk writes or
  -- more, `commit` empties the log on the disk and puts every block outside the log in place, as the
  -- transaction left it in the cache.
  pub commit-InPlace :
      s.log.lh.n + s.log.lh.n + 1 < s.power
      → ((commit s).disk s.log.start 0 ≡ 0) × InPlace s.log.start s.cache (commit s).disk
  unfolding commit finish
  commit-InPlace h = elim (Bool-cases (ltb 0 s.log.lh.n)) [
    | inl some_blocks ↦ rw some_blocks (finish-InPlace h)
    | inr no_blocks ↦
        rw no_blocks (ready.empty, λ b out. ready.clean b out (λ i lt. absurd (ground arith)))
  ]

recover_twice :
    {v : ℕ → Block} (q r k : ℕ) (t : Machine)
    → k ≡ t.log.start
    → Stands k v t.disk
    → log_size_max + 1 < r
    → InPlace k v (recover_from_log (reboot r (recover_from_log (reboot q t)))).disk
recover_twice {v} q r k t place st h =
    let u = recover_from_log (reboot q t) in
    let same : u.log.start ≡ t.log.start = recover-start (reboot q t) in
    let later : Stands u.log.start v u.disk =
      subst (λ i. Stands i v u.disk) (sym same)
        (recover-Stands q t (subst (λ i. Stands i v t.disk) place st)) in
    subst (λ i. InPlace i v (recover_from_log (reboot r u)).disk) (same ∙ sym place)
      (recover-InPlace r u later h).1

-- A transaction is ready to commit: the log on the disk is empty, the listed blocks lie outside the
-- log, and every other block outside it is as on the disk. The power fails after any number of disk
-- writes of `commit`, and again after any number `q` of disk writes of the recovery. When a second
-- recovery, with power for 32 disk writes or more, is over, either every block outside the log is as
-- on the disk before the transaction, or every one is as the transaction left it in the cache.
pub crash_safe :
    {s : Machine} (q r : ℕ)
    → Ready s
    → log_size_max + 1 < r
    → let d = (recover_from_log (reboot r (recover_from_log (reboot q (commit s))))).disk in
      InPlace s.log.start s.disk d ⊎ InPlace s.log.start s.cache d
crash_safe {s} q r ready h = go (commit-Stands ready)
  where
    go :
        Stands s.log.start s.disk (commit s).disk ⊎ Stands s.log.start s.cache (commit s).disk
        → let d = (recover_from_log (reboot r (recover_from_log (reboot q (commit s))))).disk in
          InPlace s.log.start s.disk d ⊎ InPlace s.log.start s.cache d
    go (inl old) = inl (recover_twice q r s.log.start (commit s) (sym (commit-start s)) old h)
    go (inr new) = inr (recover_twice q r s.log.start (commit s) (sym (commit-start s)) new h)
