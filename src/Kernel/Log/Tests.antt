-- ===== src/Kernel/Log/Tests.antt =====
-- The theorems at a transaction of two blocks, in a log that starts at block 2.
use xv6_tp.Base.{
  ℕ, ◌+◌, ◌↔◌, ◌≡◌, ◌≢◌, ◌⊎◌, false, none, [], ◌∷◌, ◌==◌, if◌then◌else◌, arith, refl, update,
}
use xv6_tp.Kernel.Log.{
  Block, Log, Machine, log_size_max, log_write, end_op_enter, panics, begin_op, commit,
  recover_from_log,
}
use xv6_tp.Kernel.Log.Stands.{Stands, InPlace, Stands-of_empty}
use xv6_tp.Kernel.Log.Recovery.{reboot, recover-InPlace}
use xv6_tp.Kernel.Log.Copy.{Ready}
use xv6_tp.Kernel.Log.Commit.{commit-InPlace, crash_safe}
use xv6_tp.Kernel.Log.Space.{Calls, here, next, begin, no_overflow}

abbrev blank : ℕ → Block
blank b i = 0

abbrev two_blocks : Log
two_blocks = record {
  start = 2;
  size = 31;
  outstanding = 1;
  committing = false;
  dev = 1;
  lh = record { n = 2; block = λ i. if i == 0 then 100 else 101 };
}

-- Blocks 100 and 101 have been modified in their buffers.
abbrev modified : ℕ → Machine
modified power = record {
  disk = blank;
  cache = update (update blank 100 (λ i. 7)) 101 (λ i. 8);
  pins = update (update (λ b. 0) 100 1) 101 1;
  power = power;
  log = two_blocks;
}

modified-Ready : (power : ℕ) → Ready (modified power)
modified-Ready power = record {
  few = omega arith;
  home = λ i h. ground arith;
  empty = refl;
  clean = λ b h out. ground (arith, out 0, out 1);
}

-- The power fails after three writes: both copies and the header.
crash_safe_example :
    InPlace 2 blank
      (recover_from_log (reboot 40 (recover_from_log (reboot 1 (commit (modified 3)))))).disk
    ⊎ InPlace 2
        (modified 3).cache
        (recover_from_log (reboot 40 (recover_from_log (reboot 1 (commit (modified 3)))))).disk
crash_safe_example = crash_safe {s = modified 3} 1 40 (modified-Ready 3) (omega arith)

commit-InPlace_example :
    ((commit (modified 6)).disk 2 0 ≡ 0) × InPlace 2 (modified 6).cache (commit (modified 6)).disk
commit-InPlace_example = commit-InPlace {s = modified 6} (modified-Ready 6) (omega arith)

blank-Stands : Stands 2 blank blank
blank-Stands = Stands-of_empty refl (λ b h. refl)

recover-InPlace_example :
    ((recover_from_log (reboot 40 (modified 0))).disk 2 0 ≡ 0)
    × InPlace 2 blank (recover_from_log (reboot 40 (modified 0))).disk
recover-InPlace_example = recover-InPlace 40 (modified 0) blank-Stands (omega arith)

-- Block 55 is new to the log.
abbrev third : Machine
third = record (modified 0) {
  pins = update (modified 0).pins 55 1;
  log = record two_blocks {
    lh = record { n = 3; block = update (λ i. if i == 0 then 100 else 101) 2 55 };
  };
}

abbrev fresh : Calls
fresh = record {
  machine = record (modified 0) {
    log = record two_blocks { size = 30; outstanding = 0; lh = record { n = 0; block = λ i. 0 } };
  };
  used = [];
}

abbrev one_call : Calls
one_call = record {
  machine = record (fresh.machine) { log = record (fresh.machine.log) { outstanding = 1 } };
  used = 0 ∷ [];
}

-- A log as large as that of mkfs has 30 blocks.
no_overflow_example :
    (end_op_enter one_call.machine.log ≢ panics)
    × ((log_write 100 one_call.machine ≡ none) ↔ (
        (fresh.machine.log.size ≡ log_size_max) × (one_call.machine.log.lh.n + 1 ≡ log_size_max)))
    × (one_call.machine.log.committing ≡ false)
unfolding begin_op
no_overflow_example =
    no_overflow {s = fresh} {t = one_call} [] 0 [] 100
      (record { none_runs = refl; outstanding = refl; idle = refl; empty = refl }) (omega arith)
      (next here (begin refl)) refl (omega arith)
