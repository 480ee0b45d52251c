-- ===== src/Kernel/Log/Write.antt =====
-- `log_write`: recording a modified block in the header in memory.
use xv6_tp.Base.{
  ℕ, ◌+◌, ◌<◌, ◌≡◌, ◌≢◌, inl, inr, arith, update, some, Option-cases, ◌==◌, find_first,
  find_first_sound, find_first-none, IsFirst,
}
use xv6_tp.Kernel.Log.{LogHeader, Machine, log_write, bpin}

-- The header lists the block `b`.
abbrev pub IsListed : LogHeader → ℕ → Type 0
IsListed h b = (i : ℕ) × (i < h.n) × (h.block i ≡ b)

-- No block is listed twice.
abbrev pub IsDistinct : LogHeader → Type 0
IsDistinct h = (i j : ℕ) → i < h.n → j < h.n → h.block i ≡ h.block j → i ≡ j

-- What a call that does not panic has done: absorbed a block that is already listed, or added it at
-- the end and pinned its buffer.
pub data Logged (b : ℕ) (s t : Machine) : Type 0 where
  absorbed :
      (i : ℕ)
      → i < s.log.lh.n
      → s.log.lh.block i ≡ b
      → t ≡ record s {
        log = record (s.log) { lh = record (s.log.lh) { block = update s.log.lh.block i b } };
      }
      → Logged b s t
  added :
      ((i : ℕ) → i < s.log.lh.n → s.log.lh.block i ≢ b)
      → t ≡ record s {
        log = record (s.log) {
          lh = record { n = s.log.lh.n + 1; block = update s.log.lh.block s.log.lh.n b };
        };
        pins = update s.pins b (s.pins b + 1);
      }
      → Logged b s t

-- A `log_write` that does not panic leaves the header and the pins as they were if the block is
-- already listed, and otherwise lists it at the end of the header and pins its buffer once; nothing
-- else changes.
pub log_write-Logged : (b : ℕ) {s t : Machine} → log_write b s ≡ some t → Logged b s t
unfolding log_write bpin
log_write-Logged b {s} {t} e =
    elim (Option-cases (find_first (λ i. s.log.lh.block i == b) s.log.lh.n)) [
      | inl out ↦
          added
            (λ i h. ground (arith, find_first-none (λ k. s.log.lh.block k == b) s.log.lh.n out i h))
            (ground arith)
      | inr (i, found) ↦
          let r : IsFirst (λ k. s.log.lh.block k == b) 0 s.log.lh.n i =
            find_first_sound _ s.log.lh.n i found in
          absorbed i (omega (arith, r.below)) (ground (arith, r.passes)) (ground (arith, r.below))
    ]

-- If the header lists each block at most once, it still does after a `log_write` that does not
-- panic, and then it lists the block that was written.
pub log_write-IsDistinct :
    (b : ℕ) (s : Machine) {t : Machine}
    → IsDistinct s.log.lh
    → log_write b s ≡ some t
    → IsDistinct t.log.lh × IsListed t.log.lh b
log_write-IsDistinct b s {t} d e = go (log_write-Logged b e)
  where
    go : Logged b s t → IsDistinct t.log.lh × IsListed t.log.lh b
    go (absorbed i lt hit new) =
        (λ j k hj hk same. ground (arith, d j k), (i, ground arith, ground arith))
    go (added out new) = (
      λ j k hj hk same. ground (arith, d j k, out j, out k),
      (s.log.lh.n, ground arith, ground arith),
    )
