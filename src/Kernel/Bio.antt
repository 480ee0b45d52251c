-- ===== src/Kernel/Bio.antt =====
-- kernel/bio.c: the buffer cache.
--
-- A buffer is known by its slot of `bcache.buf`. The linked list is the list of slots from `head.next`,
-- the most recent, to `head.prev`. A disk is a map of blocks. The answer of `holdingsleep` is an
-- argument. `bget` is modelled up to the point where it waits for the buffer's sleeplock.
pub mod Scans
pub mod Once
pub mod Lookup
mod Tests
use xv6_tp.Base.{
  ℕ, zero, suc, ◌+◌, ◌-◌, ◌%◌, ◌^◌, Bool, true, false, not, ◌&&◌, Option, none, some, List, [], ◌∷◌,
  ◌==◌, if◌then◌else◌, update,
}
use xv6_tp.Base.Run.{Run, done, panics, ◌>>=◌}

abbrev pub nbuf : ℕ
nbuf = 30

-- `struct buf`, less its sleeplock and links. `bytes` is its data.
pub record Buf : Type 0 where
  pub valid : Bool
  pub dev : ℕ
  pub blockno : ℕ
  pub refcnt : ℕ
  pub bytes : ℕ → ℕ

-- `disk dev blockno` are the bytes of a block.
pub record Bcache : Type 0 where
  pub buf : ℕ → Buf
  pub order : List ℕ
  pub disk : ℕ → ℕ → ℕ → ℕ

abbrev pub set_buf : ℕ → Buf → Bcache → Bcache
set_buf b x s = record s { buf = update s.buf b x }

-- The buffers in the order in which `binit` leaves them: the last is in front.
unfoldable pub insert_all : ℕ → List ℕ
insert_all zero = []
insert_all (suc n) = n ∷ insert_all n

unfoldable pub binit : Bcache → Bcache
binit s = record s { order = insert_all nbuf }

-- The first slot of a list that passes a test, from the front and from the back.
unfoldable pub find_in : (ℕ → Bool) → List ℕ → Option ℕ
find_in test [] = none
find_in test (b ∷ l) = let rest = find_in test l in if test b then some b else rest

unfoldable pub find_back : (ℕ → Bool) → List ℕ → Option ℕ
find_back test [] = none
find_back test (b ∷ l) = elim (find_back test l) [
  | some c ↦ some c
  | none ↦ if test b then some b else none
]

abbrev pub caches : (dev blockno : ℕ) → Bcache → ℕ → Bool
caches dev blockno s b = ((s.buf b).dev == dev) && ((s.buf b).blockno == blockno)

abbrev pub unreferenced : Bcache → ℕ → Bool
unreferenced s b = (s.buf b).refcnt == 0

abbrev pub refer : ℕ → Bcache → Bcache
refer b s = set_buf b (record (s.buf b) { refcnt = ((s.buf b).refcnt + 1) % 2 ^ 32 }) s

abbrev pub recycle : (dev blockno b : ℕ) → Bcache → Bcache
recycle dev blockno b s =
    set_buf b (record (s.buf b) { dev = dev; blockno = blockno; valid = false; refcnt = 1 }) s

unfoldable pub bget : (dev blockno : ℕ) → Bcache → Run (ℕ × Bcache)
bget dev blockno s = elim (find_in (caches dev blockno s) s.order) [
  | some b ↦ done (b, refer b s)
  | none ↦ elim (find_back (unreferenced s) s.order) [
    | some b ↦ done (b, recycle dev blockno b s)
    | none ↦ panics
  ]
]

-- The block is read unless the buffer has it.
abbrev pub fill : ℕ × Bcache → Run (ℕ × Bcache)
fill (b, s) =
    let x = s.buf b in
    if x.valid
    then done (b, s)
    else done (b, set_buf b (record x { bytes = s.disk x.dev x.blockno; valid = true }) s)

unfoldable pub bread : (dev blockno : ℕ) → Bcache → Run (ℕ × Bcache)
bread dev blockno s = bget dev blockno s >>= fill

unfoldable pub write_back : (holding : Bool) → ℕ → Bcache → Run Bcache
write_back holding b s =
    let x = s.buf b in
    if not holding
    then panics
    else done (record s { disk = update s.disk x.dev (update (s.disk x.dev) x.blockno x.bytes) })

-- The list without a slot.
pub unlink : ℕ → List ℕ → List ℕ
unlink b [] = []
unlink b (c ∷ l) = let rest = unlink b l in if b == c then rest else c ∷ rest

-- The counter is unsigned: it wraps at 0.
abbrev pub unrefer : ℕ → Bcache → Bcache
unrefer b s = set_buf b (record (s.buf b) { refcnt = ((s.buf b).refcnt + (2 ^ 32 - 1)) % 2 ^ 32 }) s

abbrev pub to_front : ℕ → Bcache → Bcache
to_front b s = record s { order = b ∷ unlink b s.order }

unfoldable pub brelse : (holding : Bool) → ℕ → Bcache → Run Bcache
brelse holding b s =
    let t = unrefer b s in
    if not holding then panics else if (t.buf b).refcnt == 0 then done (to_front b t) else done t

-- A client that holds a buffer changes its data.
abbrev pub modify : ℕ → (ℕ → ℕ) → Bcache → Bcache
modify b bytes s = set_buf b (record (s.buf b) { bytes = bytes }) s
