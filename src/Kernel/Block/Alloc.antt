-- ===== src/Kernel/Block/Alloc.antt =====
-- `balloc` and `bfree` against the set of free blocks.
use xv6_tp.Base.{
  ℕ, zero, suc, ◌+◌, ◌-◌, ◌/◌, ◌%◌, ◌≤◌, ◌<◌, ◌≡◌, ◌≢◌, ◌⊎◌, Bool, true, false, some, ◌∷◌, ◌==◌,
  ltb, if◌then◌else◌, arith, refl, Bool-cases, Option-cases, inl, inr, ==_iff, IsFirst, sym, ◌∙◌,
  ap, update, update_self, update_ne,
}
use mathlib.Core.Path.{subst}
use xv6_tp.Base.Run.{done, panics}
use xv6_tp.Kernel.Block.{
  Superblock, Disk, mark, write_block, bzero, bpb, bblock, is_free, mark_used, mark_free,
  find_block, balloc, bfree,
}
use xv6_tp.Kernel.Block.Bits.{
  Bytes, is_free-mark_used, is_free-mark_free, mark_used-Bytes, mark_free-Bytes,
}
use xv6_tp.Kernel.Block.Scan.{unused, Finds, scan-Finds}

-- The first block behind the bitmap.
abbrev pub first_data : Superblock → ℕ
first_data sb = sb.bmapstart + sb.size / bpb + 1

-- The blocks hold bytes, and the blocks up to the bitmap's last are in use.
pub record IsVolume (sb : Superblock) (d : Disk) : Type 0 where
  pub bytes : (b : ℕ) → Bytes (d.bytes b)
  pub reserved : (b : ℕ) → b < first_data sb → unused sb d b ≡ false
  pub small : first_data sb ≤ sb.size

-- `b` was the first free block, and `d'` is `d` with it in use and zeroed.
pub record Fresh (sb : Superblock) (d : Disk) (b : ℕ) (d' : Disk) : Type 0 where
  pub first : IsFirst (unused sb d) 0 sb.size b
  pub above : first_data sb ≤ b
  pub marks : (x : ℕ) → x < sb.size → unused sb d' x ≡ (if x == b then false else unused sb d x)
  pub zeroed : (i : ℕ) → d'.bytes b i ≡ 0
  pub others : (x : ℕ) → x ≢ b → x ≢ bblock b sb → d'.bytes x ≡ d.bytes x
  pub logs : d'.logged ≡ b ∷ bblock b sb ∷ d.logged
  pub volume : IsVolume sb d'

-- What `balloc` comes to: 0 if the disk is full, or the block that it took.
abbrev pub Taken : Superblock → Disk → ℕ × Disk → Type 0
Taken sb d (zero, d') = (d' ≡ d) × ((x : ℕ) → x < sb.size → unused sb d x ≡ false)
Taken sb d (suc b, d') = Fresh sb d (suc b) d'

-- A block outside the bitmap.
abbrev pub OffMap : Superblock → ℕ → Type 0
OffMap sb b = (b < sb.bmapstart) ⊎ (first_data sb ≤ b)

update-Bytes :
    (f : ℕ → ℕ → ℕ) (b : ℕ) (block : ℕ → ℕ)
    → Bytes block
    → ((x : ℕ) → Bytes (f x))
    → (x : ℕ) → Bytes (update f b block x)
update-Bytes f b block h g x i = elim (Bool-cases (b == x)) [
  | inl e ↦ rw e (h i)
  | inr e ↦ rw e (g x i)
]

module _ (sb : Superblock) (b : ℕ) (block : ℕ → ℕ) (e : Disk) (off : OffMap sb b) where
  pub unused-write : (x : ℕ) → x < sb.size → unused sb (write_block b block e) x ≡ unused sb e x
  unused-write x lt =
      let ne : b ≢ bblock x sb = λ q. elim off [ inl lo ↦ omega arith | inr hi ↦ omega arith ] in
      rw (update_ne e.bytes b (bblock x sb) block ne) refl

  pub IsVolume-write : IsVolume sb e → Bytes block → IsVolume sb (write_block b block e)
  IsVolume-write v h = record {
    bytes = update-Bytes e.bytes b block h v.bytes;
    reserved = λ x lt. unused-write x (omega (arith, v.small)) ∙ v.reserved x lt;
    small = v.small;
  }

Fresh-Taken :
    (sb : Superblock) (d : Disk) (b : ℕ) (d' : Disk) → Fresh sb d b d' → Taken sb d (b, d')
Fresh-Taken sb d zero d' f = absurd (omega (arith, f.above))
Fresh-Taken sb d (suc b) d' f = f

module _ (sb : Superblock) (d : Disk) (v : IsVolume sb d) where
  -- A free block lies behind the bitmap.
  free_above : (b : ℕ) → unused sb d b ≡ true → first_data sb ≤ b
  free_above b e = elim (Bool-cases (ltb b (first_data sb))) [
    | inl low ↦ absurd (ground (arith, v.reserved b (ground arith)))
    | inr high ↦ ground arith
  ]

  -- The bitmap once a bit of it was set or cleared.
  module _ (b : ℕ) (block : ℕ → ℕ) (bit : Bool)
      (marked : (j : ℕ)
        → is_free block j ≡ (if j == b % bpb then bit else is_free (d.bytes (bblock b sb)) j)) where
    unused-mark :
        (x : ℕ) → unused sb (mark b block sb d) x ≡ (if x == b then bit else unused sb d x)
    unused-mark x = elim (Bool-cases (x / bpb == b / bpb)) [
      | inl near ↦
          let e : x / bpb ≡ b / bpb = (==_iff _ _).0 near in
          let at : bblock x sb ≡ bblock b sb = ap (λ (q : ℕ). q + sb.bmapstart) e in
          let place : (x % bpb == b % bpb) ≡ (x == b) = ground arith in
          rw (at, update_self d.bytes (bblock b sb) block, marked (x % bpb), place) refl
      | inr far ↦
          let ne : bblock b sb ≢ bblock x sb = λ e. ground (arith, far) in
          let other : (x == b) ≡ false = ground arith in
          rw (update_ne d.bytes (bblock b sb) (bblock x sb) block ne, other) refl
    ]

  taken :
      (b : ℕ)
      → Finds sb d 0 (some b)
      → Fresh sb d b (bzero b (mark b (mark_used (d.bytes (bblock b sb)) (b % bpb)) sb d))
  taken b f =
      let blk = bblock b sb in
      let block = mark_used (d.bytes blk) (b % bpb) in
      let hi : first_data sb ≤ b = free_above b f.passes in
      let d1 : Disk = mark b block sb d in
      let law = λ (j : ℕ). is_free-mark_used (d.bytes blk) (v.bytes blk) (b % bpb) j in
      let marks : (x : ℕ)
          → x < sb.size
          → unused sb (bzero b d1) x ≡ (if x == b then false else unused sb d x) =
        λ x lt. unused-write sb b (λ i. 0) d1 (inr hi) x lt ∙ unused-mark b block false law x in
      record {
        first = record {
          from = omega arith;
          below = omega (arith, f.below);
          passes = f.passes;
          before = f.before;
        };
        above = hi;
        marks = marks;
        zeroed = λ i. ap (λ (g : ℕ → ℕ). g i) (update_self d1.bytes b (λ i. 0));
        others = λ x ne ne'.
            update_ne d1.bytes b x (λ i. 0) (λ e. ne (sym e))
            ∙ update_ne d.bytes blk x block (λ e. ne' (sym e));
        logs = refl;
        volume = record {
          bytes =
              update-Bytes d1.bytes b (λ i. 0) (λ i. omega arith)
                (update-Bytes d.bytes blk block
                  (mark_used-Bytes (d.bytes blk) (v.bytes blk) (b % bpb)) v.bytes);
          reserved = λ x lt.
              let low : x < sb.size = omega (arith, v.small) in
              ground (arith, marks x low, v.reserved x lt);
          small = v.small;
        };
      }

  -- `balloc` finds the first free block of the disk, marks it and no other block, zeroes it, and
  -- gives the two blocks that it changed to the log; if no block is free it answers 0 and changes
  -- nothing. The disk stays a volume: bytes, with the blocks up to the bitmap in use.
  pub balloc-Taken : Taken sb d (balloc sb d)
  unfolding balloc
  balloc-Taken = elim (Option-cases (find_block sb d ((sb.size + bpb - 1) / bpb) 0)) [
    | inl e ↦
        let f = subst (Finds sb d 0) e (scan-Finds sb d) in
        rw (e, balloc) (refl, λ x h. f x (omega arith) h)
    | inr (b, e) ↦
        let f = subst (Finds sb d 0) e (scan-Finds sb d) in
        rw (e, balloc) (Fresh-Taken sb d b _ (taken b f))
  ]

  -- What `bfree` of a data block comes to.
  pub record Freed (b : ℕ) (d' : Disk) : Type 0 where
    pub clears : (x : ℕ) → x < sb.size → unused sb d' x ≡ (if x == b then true else unused sb d x)
    pub others : (x : ℕ) → x ≢ bblock b sb → d'.bytes x ≡ d.bytes x
    pub logs : d'.logged ≡ bblock b sb ∷ d.logged
    pub volume : IsVolume sb d'

  -- `bfree` of a data block in use clears its bit in the bitmap and no other, changes no other
  -- block, and gives the block of the bitmap to the log; the disk stays a volume.
  pub bfree-Freed :
      (b : ℕ)
      → first_data sb ≤ b
      → b < sb.size
      → unused sb d b ≡ false
      → (d' : Disk) × (bfree sb b d ≡ done d') × Freed b d'
  unfolding bfree
  bfree-Freed b hi lt e =
      let blk = bblock b sb in
      let block = mark_free (d.bytes blk) (b % bpb) in
      let law = λ (j : ℕ). is_free-mark_free (d.bytes blk) (v.bytes blk) (b % bpb) j in
      let clears : (x : ℕ)
          → unused sb (mark b block sb d) x ≡ (if x == b then true else unused sb d x) =
        unused-mark b block true law in
      (
        mark b block sb d,
        rw e refl,
        record {
          clears = λ x h. clears x;
          others = λ x ne. update_ne d.bytes blk x block (λ e. ne (sym e));
          logs = refl;
          volume = record {
            bytes =
                update-Bytes d.bytes blk block
                  (mark_free-Bytes (d.bytes blk) (v.bytes blk) (b % bpb)) v.bytes;
            reserved = λ x low. ground (arith, clears x, v.reserved x low);
            small = v.small;
          };
        },
      )

bfree-panics : (sb : Superblock) (b : ℕ) (d : Disk) → unused sb d b ≡ true → bfree sb b d ≡ panics
unfolding bfree
bfree-panics sb b d e = rw e refl

-- Freeing the block that `balloc` answered gives the set of free blocks from before, and `bfree` of
-- a block that is already free panics.
pub bfree-balloc :
    (sb : Superblock) (d : Disk)
    → IsVolume sb d
    → (b : ℕ) (d' : Disk) → balloc sb d ≡ (b, d')
    → b ≢ 0
    → (d'' : Disk) × (bfree sb b d' ≡ done d'')
      × ((x : ℕ) → x < sb.size → unused sb d'' x ≡ unused sb d x)
      × (bfree sb b d'' ≡ panics)
bfree-balloc sb d v b d' e nz = back b d' (subst (Taken sb d) e (balloc-Taken sb d v)) nz
  where
    undo :
        (b : ℕ) (d' : Disk)
        → Fresh sb d b d'
        → (d'' : Disk) × (bfree sb b d' ≡ done d'')
          × ((x : ℕ) → x < sb.size → unused sb d'' x ≡ unused sb d x)
          × (bfree sb b d'' ≡ panics)
    undo b d' f =
        let lt : b < sb.size = omega (arith, f.first.below) in
        let used : unused sb d' b ≡ false = ground (arith, f.marks b lt) in
        let (d'', run, freed) = bfree-Freed sb d' f.volume b f.above lt used in
        let again : unused sb d'' b ≡ true = ground (arith, freed.clears b lt) in
        (
          d'',
          run,
          λ x h. ground (arith, freed.clears x h, f.marks x h, f.first.passes),
          bfree-panics sb b d'' again,
        )

    back :
        (b : ℕ) (d' : Disk)
        → Taken sb d (b, d')
        → b ≢ 0
        → (d'' : Disk) × (bfree sb b d' ≡ done d'')
          × ((x : ℕ) → x < sb.size → unused sb d'' x ≡ unused sb d x)
          × (bfree sb b d'' ≡ panics)
    back zero d' o nz = absurd (nz refl)
    back (suc b) d' o nz = undo (suc b) d' o
