-- ===== src/Kernel/Bio/Lookup.antt =====
-- What `bread` finds: the buffer that has the block, or the least recently released free one.
use xv6_tp.Base.{
  ℕ, ◌+◌, ◌%◌, ◌^◌, ◌≡◌, ◌≢◌, Bool, true, false, none, some, List, [], ◌∷◌, ◌++◌, if◌then◌else◌,
  Bool-cases, Option-cases, inl, inr, arith, refl, ap, ◌∙◌, update,
}
use mathlib.Core.Path.{subst}
use xv6_tp.Base.Run.{Run, done, panics, ◌>>=◌}
use xv6_tp.Kernel.Bio.{
  Buf, Bcache, set_buf, find_in, find_back, caches, unreferenced, refer, recycle, bget, fill, bread,
}
use xv6_tp.Kernel.Bio.Scans.{
  stands_in, find_in-none, find_in_sound, find_back-none, find_back_sound,
}

-- The list splits at the slot that a scan from the back finds, and no slot behind it passes.
pub record Last (test : ℕ → Bool) (l : List ℕ) (b : ℕ) : Type 0 where
  pub before : List ℕ
  pub behind : List ℕ
  pub splits : l ≡ before ++ (b ∷ behind)
  pub none_behind : (c : ℕ) → stands_in c behind ≡ true → test c ≡ false

pub find_back-Last :
    (test : ℕ → Bool) (l : List ℕ) (b : ℕ) → find_back test l ≡ some b → Last test l b
unfolding find_back
find_back-Last test [] b e = absurd (ground arith)
find_back-Last test (c ∷ l) b e = elim (Option-cases (find_back test l)) [
  | inr (d, found) ↦
      let at : d ≡ b = ground (arith, found) in
      let r : Last test l d = find_back-Last test l d found in
      record {
        before = c ∷ r.before;
        behind = r.behind;
        splits =
            ap (λ (m : List ℕ). c ∷ m) r.splits
            ∙ ap (λ (x : ℕ). c ∷ (r.before ++ (x ∷ r.behind))) at;
        none_behind = r.none_behind;
      }
  | inl rest ↦
      let at : c ≡ b = ground (arith, rest) in
      record {
        before = [];
        behind = l;
        splits = ap (λ (x : ℕ). x ∷ l) at;
        none_behind = λ d h. find_back-none test l d rest h;
      }
]

-- `t` is `s` but for buffer `b`, which is `x`.
pub record Only (b : ℕ) (x : Buf) (s t : Bcache) : Type 0 where
  pub here : t.buf b ≡ x
  pub elsewhere : (c : ℕ) → b ≢ c → t.buf c ≡ s.buf c
  pub same_order : t.order ≡ s.order
  pub same_disk : t.disk ≡ s.disk

-- What `bread` may come to.
pub data Fetched (dev blockno : ℕ) (s : Bcache) (out : Run (ℕ × Bcache)) : Type 0 where
  hit :
      (b : ℕ) (t : Bcache)
      → out ≡ done (b, t)
      → stands_in b s.order ≡ true
      → (s.buf b).dev ≡ dev
      → (s.buf b).blockno ≡ blockno
      → Only b
          (record (s.buf b) {
            refcnt = ((s.buf b).refcnt + 1) % 2 ^ 32;
            valid = true;
            bytes = if (s.buf b).valid then (s.buf b).bytes else s.disk dev blockno;
          })
          s
          t
      → Fetched dev blockno s out
  miss :
      (b : ℕ) (t : Bcache)
      → out ≡ done (b, t)
      → ((c : ℕ) → stands_in c s.order ≡ true → caches dev blockno s c ≡ false)
      → (s.buf b).refcnt ≡ 0
      → Last (unreferenced s) s.order b
      → Only b
          (record {
            valid = true;
            dev = dev;
            blockno = blockno;
            refcnt = 1;
            bytes = s.disk dev blockno;
          })
          s
          t
      → Fetched dev blockno s out
  no_buffer :
      ((c : ℕ) → stands_in c s.order ≡ true → caches dev blockno s c ≡ false)
      → ((c : ℕ) → stands_in c s.order ≡ true → (s.buf c).refcnt ≢ 0)
      → out ≡ panics
      → Fetched dev blockno s out

pub bget-hit :
    (dev blockno b : ℕ) (s : Bcache)
    → find_in (caches dev blockno s) s.order ≡ some b
    → bget dev blockno s ≡ done (b, refer b s)
unfolding bget
bget-hit dev blockno b s e = ground (arith, e)

pub bget-miss :
    (dev blockno b : ℕ) (s : Bcache)
    → find_in (caches dev blockno s) s.order ≡ none
    → find_back (unreferenced s) s.order ≡ some b
    → bget dev blockno s ≡ done (b, recycle dev blockno b s)
unfolding bget
bget-miss dev blockno b s e q = ground (arith, e, q)

pub bget-panics :
    (dev blockno : ℕ) (s : Bcache)
    → find_in (caches dev blockno s) s.order ≡ none
    → find_back (unreferenced s) s.order ≡ none
    → bget dev blockno s ≡ panics
unfolding bget
bget-panics dev blockno s e q = ground (arith, e, q)

set_buf-Only : (b : ℕ) (x : Buf) (s : Bcache) → Only b x s (set_buf b x s)
set_buf-Only b x s = record {
  here = ground arith;
  elsewhere = λ c ne. ground arith;
  same_order = refl;
  same_disk = refl;
}

abbrev filled : Buf → Bcache → Buf
filled x s = record x { valid = true; bytes = if x.valid then x.bytes else s.disk x.dev x.blockno }

fill-Only :
    (b : ℕ) (x : Buf) (s u : Bcache)
    → Only b x s u
    → (t : Bcache) × (fill (b, u) ≡ done (b, t)) × Only b (filled x s) s t
fill-Only b x s u o = elim (Bool-cases x.valid) [
  | inl have ↦
      let v : (u.buf b).valid ≡ true = ap (λ (y : Buf). y.valid) o.here ∙ have in
      let same : x ≡ filled x s = ground (arith, have) in
      (
        u,
        rw v refl,
        record {
          here = o.here ∙ same;
          elsewhere = o.elsewhere;
          same_order = o.same_order;
          same_disk = o.same_disk;
        },
      )
  | inr missing ↦
      let v : (u.buf b).valid ≡ false = ap (λ (y : Buf). y.valid) o.here ∙ missing in
      let y : Buf = record (u.buf b) {
        bytes = u.disk (u.buf b).dev (u.buf b).blockno;
        valid = true;
      } in
      let read : y ≡ record x { bytes = s.disk x.dev x.blockno; valid = true } =
        rw (o.here, o.same_disk) refl in
      let chosen : record x { bytes = s.disk x.dev x.blockno; valid = true } ≡ filled x s =
        ground (arith, missing) in
      let at : update u.buf b y b ≡ y = ground arith in
      let filled_here : update u.buf b y b ≡ filled x s = at ∙ read ∙ chosen in
      (
        set_buf b
            (record (u.buf b) { bytes = u.disk (u.buf b).dev (u.buf b).blockno; valid = true }) u,
        ground (arith, v),
        record {
          here = filled_here;
          elsewhere = λ c ne. ground (arith, o.elsewhere c ne);
          same_order = o.same_order;
          same_disk = o.same_disk;
        },
      )
]

-- On a block that a listed buffer has, `bread` answers that buffer with one more reference, and reads
-- the block only if the buffer does not have it yet. Otherwise it takes the last listed buffer with no reference,
-- and this buffer has the block as it is on the disk. No other buffer changes, nor the list or the
-- disk. It panics exactly when no listed buffer has the block and each is referenced.
pub bread-Fetched : (dev blockno : ℕ) (s : Bcache) → Fetched dev blockno s (bread dev blockno s)
unfolding bread
bread-Fetched dev blockno s = elim (Option-cases (find_in (caches dev blockno s) s.order)) [
  | inr (b, found) ↦
      let (has, listed) = find_in_sound (caches dev blockno s) s.order b found in
      let at_dev : (s.buf b).dev ≡ dev = ground (arith, has) in
      let at_block : (s.buf b).blockno ≡ blockno = ground (arith, has) in
      let (t, done_t, o) = fill-Only b _ s _ (set_buf-Only b _ s) in
      let opened = ap (λ (r : Run (ℕ × Bcache)). r >>= fill) (bget-hit dev blockno b s found) in
      let block : s.disk (s.buf b).dev (s.buf b).blockno ≡ s.disk dev blockno =
        rw (at_dev, at_block) refl in
      hit b t (opened ∙ done_t) listed at_dev at_block (
        subst
          (λ (d : ℕ → ℕ).
            Only b
              (record (s.buf b) {
                refcnt = ((s.buf b).refcnt + 1) % 2 ^ 32;
                valid = true;
                bytes = if (s.buf b).valid then (s.buf b).bytes else d;
              })
              s t)
          block o)
  | inl none_has ↦ elim (Option-cases (find_back (unreferenced s) s.order)) [
    | inr (b, found) ↦
        let (free, listed) = find_back_sound (unreferenced s) s.order b found in
        let (t, done_t, o) = fill-Only b _ s _ (set_buf-Only b _ s) in
        let opened =
          ap (λ (r : Run (ℕ × Bcache)). r >>= fill) (bget-miss dev blockno b s none_has found) in
        miss b t (opened ∙ done_t) (λ c h. find_in-none (caches dev blockno s) s.order c none_has h)
          (ground (arith, free)) (find_back-Last (unreferenced s) s.order b found) o
    | inl none_free ↦
        no_buffer (λ c h. find_in-none (caches dev blockno s) s.order c none_has h)
          (λ c h z. absurd (ground (arith, find_back-none (unreferenced s) s.order c none_free h)))
          (ap (λ (r : Run (ℕ × Bcache)). r >>= fill) (bget-panics dev blockno s none_has none_free))
  ]
]
