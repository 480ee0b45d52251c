-- ===== src/Kernel/Log/Recovery.antt =====
-- `recover_from_log` after a crash, itself with power for any number of disk writes.
use xv6_tp.Base.{ℕ, ◌+◌, ◌<◌, ◌≡◌, true, arith, refl}
use xv6_tp.Kernel.Log.{Block, log_size_max, Machine, read_head, recover_from_log}
use xv6_tp.Kernel.Log.Stands.{Stands, InPlace}
use xv6_tp.Kernel.Log.Install.{Committed, Cleared, install_clear-Cleared}

-- The machine starts again: the buffers are read from the disk, and no block is pinned.
abbrev pub reboot : ℕ → Machine → Machine
reboot power s = record s { cache = s.disk; pins = λ _. 0; power = power }

module _ {v : ℕ → Block} (q : ℕ) (s : Machine) (st : Stands s.log.start v s.disk) where
  abbrev booted : Machine
  booted = reboot q s

  read_head-Committed : Committed v (read_head booted).log (read_head booted)
  unfolding read_head
  read_head-Committed = record {
    log_same = refl;
    few = st.few;
    home = λ i h. ground (arith, st.home i);
    count = refl;
    heads = λ i h. ground arith;
    copies = λ i h. ground (arith, st.copies i);
    buffers = λ i h. ground (arith, st.copies i);
    rest = λ b h out. st.rest b h (λ i lt. ground (arith, out i));
  }

  read_head-keeps : ((read_head booted).power ≡ q) × ((read_head booted).log.start ≡ s.log.start)
  unfolding read_head
  read_head-keeps = (refl, refl)

  recover-Cleared : Cleared v (read_head booted).log q (recover_from_log booted)
  unfolding recover_from_log
  recover-Cleared = install_clear-Cleared true read_head-Committed (omega (arith, read_head-keeps))

  -- A disk stands for the blocks `v` if recovery with enough power would make them of it: the
  -- listed blocks are in the log and every other block outside the log is in place. After a reboot,
  -- and whatever the number `q` of disk writes that recovery then manages, the disk still
  -- stands for the same blocks.
  pub recover-Stands : Stands s.log.start v (recover_from_log booted).disk
  unfolding read_head
  recover-Stands = recover-Cleared.stands

  -- After a reboot on a disk that stands for the blocks `v`, and with power for 32 disk writes or
  -- more, recovery empties the log and puts every block outside the log in place: it is as in `v`.
  pub recover-InPlace :
      log_size_max + 1 < q
      → ((recover_from_log booted).disk s.log.start 0 ≡ 0)
        × InPlace s.log.start v (recover_from_log booted).disk
  unfolding read_head
  recover-InPlace h = recover-Cleared.finished (omega (arith, st.few))
