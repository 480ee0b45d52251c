-- ===== src/Kernel/Log/Copy.antt =====
-- `write_log`: the copies of the modified blocks, before the header is written.
use xv6_tp.Base.{ℕ, zero, suc, ◌+◌, ◌≤◌, ◌<◌, ◌≡◌, ◌≢◌, ◌⊎◌, inl, inr, arith, refl, for_below_inv}
use xv6_tp.Kernel.Log.{log_size_max, Machine, write_one, write_log, bwrite}
use xv6_tp.Kernel.Log.Stands.{Home}

-- A transaction that is ready to commit: the log on the disk is empty, the blocks that the header
-- in memory lists lie outside the log, and every other block outside it is as on the disk.
pub record Ready (s : Machine) : Type 0 where
  pub few : s.log.lh.n ≤ log_size_max
  pub home : (i : ℕ) → i < s.log.lh.n → Home s.log.start (s.log.lh.block i)
  pub empty : s.disk s.log.start 0 ≡ 0
  pub clean :
      (b : ℕ)
      → Home s.log.start b
      → ((i : ℕ) → i < s.log.lh.n → s.log.lh.block i ≢ b)
      → s.disk b ≡ s.cache b

-- After `j` rounds of `write_log` from `s`.
pub record Copied (s : Machine) (j : ℕ) (t : Machine) : Type 0 where
  pub log_same : t.log ≡ s.log
  pub head : t.disk s.log.start ≡ s.disk s.log.start
  pub home_disk : (b : ℕ) → Home s.log.start b → t.disk b ≡ s.disk b
  pub home_cache : (b : ℕ) → Home s.log.start b → t.cache b ≡ s.cache b
  pub buffers : (i : ℕ) → i < j → t.cache (s.log.start + i + 1) ≡ s.cache (s.log.lh.block i)
  pub done :
      (t.power ≡ 0) ⊎ ((i : ℕ) → i < j → t.disk (s.log.start + i + 1) ≡ s.cache (s.log.lh.block i))
  pub spent : s.power ≤ t.power + j

module _ {s : Machine} (ready : Ready s) where
  write_one-Copied :
      (j : ℕ) (t : Machine) → j < s.log.lh.n → Copied s j t → Copied s (j + 1) (write_one j t)
  unfolding write_one bwrite
  write_one-Copied j t lt c = record {
    log_same = ground (arith, c.log_same);
    head = ground (arith, c.log_same, c.head);
    home_disk = λ b h. ground (arith, c.log_same, c.home_disk b h, ready.few);
    home_cache = λ b h. ground (arith, c.log_same, c.home_cache b h, ready.few);
    buffers = λ i h.
        ground (arith, c.log_same, c.buffers i, ready.home j lt, c.home_cache (s.log.lh.block j));
    done = go t.power refl c.done;
    spent = ground (arith, c.spent);
  }
    where
      go :
          (k : ℕ)
          → t.power ≡ k
          → (t.power ≡ 0)
            ⊎ ((i : ℕ) → i < j → t.disk (s.log.start + i + 1) ≡ s.cache (s.log.lh.block i))
          → ((write_one j t).power ≡ 0)
            ⊎ ((i : ℕ)
                → i < j + 1
                → (write_one j t).disk (s.log.start + i + 1) ≡ s.cache (s.log.lh.block i))
      go zero e d = inl (ground arith)
      go (suc k) e (inl z) = absurd (omega arith)
      go (suc k) e (inr d) =
          inr (λ i h.
            ground (arith, c.log_same, ready.home j lt, c.home_cache (s.log.lh.block j), d i))

  pub write_log-Copied : Copied s s.log.lh.n (write_log s)
  unfolding write_log
  write_log-Copied =
      for_below_inv write_one (Copied s) s.log.lh.n s (λ j t lt c. write_one-Copied j t lt c)
        (record {
          log_same = refl;
          head = refl;
          home_disk = λ b h. refl;
          home_cache = λ b h. refl;
          buffers = λ i h. absurd (omega arith);
          done = inr (λ i h. absurd (omega arith));
          spent = omega arith;
        })
