-- ===== src/Kernel/Log/Install.antt =====
-- `install_trans` and the clearing of the header: they keep what a committed disk stands for.
use mathlib.Core.Path.{subst}
use xv6_tp.Base.{
  sym, ℕ, zero, suc, ◌+◌, ◌≤◌, ◌<◌, ◌≡◌, ◌≢◌, ◌⊎◌, inl, inr, Bool, arith, for_below, for_below_inv,
  refl,
}
use xv6_tp.Kernel.Log.{
  Block, log_size_max, Log, Machine, bwrite, bunpin, install_one, install_trans, write_head,
  clear_header,
}
use xv6_tp.Kernel.Log.Stands.{Home, Stands, InPlace, listed_or_not}

-- The header of the disk is the one in memory, and the log holds the blocks of `v` that it lists.
pub record Committed (v : ℕ → Block) (l : Log) (s : Machine) : Type 0 where
  pub log_same : s.log ≡ l
  pub few : l.lh.n ≤ log_size_max
  pub home : (i : ℕ) → i < l.lh.n → Home l.start (l.lh.block i)
  pub count : s.disk l.start 0 ≡ l.lh.n
  pub heads : (i : ℕ) → i < l.lh.n → s.disk l.start (i + 1) ≡ l.lh.block i
  pub copies : (i : ℕ) → i < l.lh.n → s.disk (l.start + i + 1) ≡ v (l.lh.block i)
  pub buffers : (i : ℕ) → i < l.lh.n → s.cache (l.start + i + 1) ≡ v (l.lh.block i)
  pub rest : (b : ℕ) → Home l.start b → ((i : ℕ) → i < l.lh.n → l.lh.block i ≢ b) → s.disk b ≡ v b

module _ {v : ℕ → Block} {l : Log} where
  pub Committed-Stands : {s : Machine} → Committed v l s → Stands l.start v s.disk
  Committed-Stands {s} c = record {
    few = omega (arith, c.few, c.count);
    home = λ i h. ground (arith, c.count, c.heads i, c.home i);
    copies = λ i h. ground (arith, c.count, c.heads i, c.copies i);
    rest = λ b h out. c.rest b h (λ i lt. ground (arith, c.count, c.heads i, out i));
  }

  module _ {s : Machine} (c : Committed v l s) (recovering : Bool) (j : ℕ) (lt : j < l.lh.n) where
    install_one-Committed : Committed v l (install_one recovering j s)
    unfolding install_one bwrite bunpin
    install_one-Committed = record {
      log_same = ground (arith, c.log_same);
      few = c.few;
      home = c.home;
      count = ground (arith, c.log_same, c.count, c.home j);
      heads = λ i h. ground (arith, c.log_same, c.heads i, c.home j);
      copies = λ i h. ground (arith, c.log_same, c.copies i, c.home j, c.few);
      buffers = λ i h. ground (arith, c.log_same, c.buffers i, c.home j, c.few);
      rest = λ b h out. ground (arith, c.log_same, c.rest b h out, out j);
    }

-- After `j` rounds, started with power for `q` disk writes.
record Progress (v : ℕ → Block) (l : Log) (q j : ℕ) (s : Machine) : Type 0 where
  committed : Committed v l s
  done : (s.power ≡ 0) ⊎ ((i : ℕ) → i < j → s.disk (l.lh.block i) ≡ v (l.lh.block i))
  spent : q ≤ s.power + j

-- What clearing the header leaves on the disk.
pub record Cleared (v : ℕ → Block) (l : Log) (q : ℕ) (s : Machine) : Type 0 where
  pub stands : Stands l.start v s.disk
  pub finished : l.lh.n < q → (s.disk l.start 0 ≡ 0) × InPlace l.start v s.disk

module _ {v : ℕ → Block} {l : Log} {q : ℕ} where
  module _ {s : Machine} (recovering : Bool) (j : ℕ) (lt : j < l.lh.n)
      (p : Progress v l q j s) where
    install_one-Progress : Progress v l q (j + 1) (install_one recovering j s)
    unfolding install_one bwrite bunpin
    install_one-Progress = record {
      committed = install_one-Committed p.committed recovering j lt;
      done = go s.power refl p.done;
      spent = ground (arith, p.spent);
    }
      where
        go :
            (k : ℕ)
            → s.power ≡ k
            → (s.power ≡ 0) ⊎ ((i : ℕ) → i < j → s.disk (l.lh.block i) ≡ v (l.lh.block i))
            → ((install_one recovering j s).power ≡ 0)
              ⊎ ((i : ℕ)
                  → i < j + 1
                  → (install_one recovering j s).disk (l.lh.block i) ≡ v (l.lh.block i))
        go zero e d = inl (ground arith)
        go (suc k) e (inl z) = absurd (omega arith)
        go (suc k) e (inr d) =
            inr (λ i h. ground (arith, p.committed.log_same, p.committed.buffers j, d i))

  install_trans-Progress :
      {s : Machine} (recovering : Bool)
      → Committed v l s
      → q ≤ s.power
      → Progress v l q l.lh.n (install_trans recovering s)
  unfolding install_trans
  install_trans-Progress {s} recovering c h =
      subst (λ (m : Log). Progress v l q l.lh.n (for_below (install_one recovering) m.lh.n s))
        (sym c.log_same)
        (for_below_inv (install_one recovering) (Progress v l q) l.lh.n s
          (λ j t lt p. install_one-Progress recovering j lt p)
          (record {
            committed = c;
            done = inr (λ i lt. absurd (omega arith));
            spent = omega arith;
          }))

  module _ {s : Machine} (p : Progress v l q l.lh.n s) where
    open p use {committed, done, spent}

    in_place : 0 < s.power → InPlace l.start v s.disk
    in_place pos_power b h = go done (listed_or_not l.lh.block l.lh.n b)
      where
        go :
            (s.power ≡ 0) ⊎ ((i : ℕ) → i < l.lh.n → s.disk (l.lh.block i) ≡ v (l.lh.block i))
            → ((i : ℕ) × (i < l.lh.n) × (l.lh.block i ≡ b))
              ⊎ ((i : ℕ) → i < l.lh.n → l.lh.block i ≢ b)
            → s.disk b ≡ v b
        go (inl z) w = absurd (omega arith)
        go (inr d) (inl (i, lt, e)) = rw e at (d i lt)
        go (inr d) (inr out) = committed.rest b h out

    clear-in_place :
        (b : ℕ) → Home l.start b → 0 < s.power → (write_head (clear_header s)).disk b ≡ v b
    unfolding write_head bwrite
    clear-in_place b h pw = ground (arith, committed.log_same, in_place pw b h)

    clear-zero : 0 < s.power → (write_head (clear_header s)).disk l.start 0 ≡ 0
    unfolding write_head bwrite
    clear-zero pw = ground (arith, committed.log_same)

    clear-off : s.power ≡ 0 → (write_head (clear_header s)).disk ≡ s.disk
    unfolding write_head bwrite
    clear-off e = ground arith

    clear-Cleared : Cleared v l q (write_head (clear_header s))
    clear-Cleared = record { stands = go s.power refl; finished = finished }
      where
        finished :
            l.lh.n < q
            → ((write_head (clear_header s)).disk l.start 0 ≡ 0)
              × InPlace l.start v (write_head (clear_header s)).disk
        finished h = (
          clear-zero (omega (arith, spent)),
          λ b out. clear-in_place b out (omega (arith, spent)),
        )

        go : (k : ℕ) → s.power ≡ k → Stands l.start v (write_head (clear_header s)).disk
        go zero e = rw (clear-off e) (Committed-Stands committed)
        go (suc k) e =
            let z = clear-zero (omega arith) in
            record {
              few = omega (arith, z);
              home = λ i h. absurd (omega (arith, z));
              copies = λ i h. absurd (omega (arith, z));
              rest = λ b h out. clear-in_place b h (omega arith);
            }

  -- Installing a committed transaction and clearing the header, with power for any number of writes.
  pub install_clear-Cleared :
      {s : Machine} (recovering : Bool)
      → Committed v l s
      → q ≤ s.power
      → Cleared v l q (write_head (clear_header (install_trans recovering s)))
  install_clear-Cleared recovering c h = clear-Cleared (install_trans-Progress recovering c h)
