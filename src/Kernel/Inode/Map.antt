-- ===== src/Kernel/Inode/Map.antt =====
-- What `bmap` comes to.
use mathlib.Core.Path.{subst}
use xv6_tp.Base.{
  ℕ, zero, suc, ◌+◌, ◌-◌, ◌<◌, ◌≡◌, ◌≢◌, true, false, ◌==◌, ltb, arith, refl, Bool-cases, inl, inr,
  ==_iff, sym, ◌∙◌, ap, update, update_self, fun_ext,
}
use xv6_tp.Base.Run.{done}
use xv6_tp.Kernel.Block.{Superblock, Disk, balloc, word_at}
use xv6_tp.Kernel.Block.Scan.{unused}
use xv6_tp.Kernel.Block.Words.{==_self}
use xv6_tp.Kernel.Block.Alloc.{Fresh, Taken, balloc-Taken}
use xv6_tp.Kernel.Inode.{
  Inode, ndirect, nindirect, maxfile, new_direct, direct, new_leaf, leaf, indirect, bmap,
}
use xv6_tp.Kernel.Inode.Slots.{
  slot, file_byte, IsSound, Grows, Grows-IsSound, Grows-file_byte, Grows-slot,
}
use xv6_tp.Kernel.Inode.Grow.{with_addr, slot_word, direct-Grows, indirect-Grows, leaf-Grows}

pub update_id {ℓ} : {A : Type ℓ} (f : ℕ → A) (i : ℕ) → update f i (f i) ≡ f
update_id f i =
    fun_ext (λ j. elim (Bool-cases (i == j)) [
      | inl e ↦ rw e (ap f ((==_iff _ _).0 e))
      | inr e ↦ rw e refl
    ])

pub update_twice {ℓ} :
    {A : Type ℓ} (f : ℕ → A) (i : ℕ) (a b : A) → update (update f i a) i b ≡ update f i b
update_twice f i a b =
    fun_ext (λ j. elim (Bool-cases (i == j)) [ inl e ↦ rw e refl | inr e ↦ rw e refl ])

-- The inodes stay sound, no byte of a file changes, and no file loses a block.
pub record Carries (sb : Superblock) (inode : ℕ → Inode) (d : Disk) (inode' : ℕ → Inode) (d' : Disk)
    : Type 0 where
  pub sound : IsSound sb inode' d'
  pub same : (i o : ℕ) → file_byte (inode' i) d' o ≡ file_byte (inode i) d o
  pub keeps : (i k : ℕ) → slot (inode i) d k ≢ 0 → slot (inode' i) d' k ≡ slot (inode i) d k

-- No block is free.
abbrev pub IsFull : Superblock → Disk → Type 0
IsFull sb d = (x : ℕ) → x < sb.size → unused sb d x ≡ false

-- The result of a call for inode `i`: the address at a position, the inode and the disk.
pub record Mapped (sb : Superblock) (inode : ℕ → Inode) (d : Disk) (i k a : ℕ) (ip : Inode)
    (d' : Disk) : Type 0 where
  pub carries : Carries sb inode d (update inode i ip) d'
  pub at_slot : a ≡ slot ip d' k
  pub fields : ip ≡ record (inode i) { addrs = ip.addrs }
  pub or_full : a ≡ 0 → IsFull sb d'

abbrev MappedAs : Superblock → (ℕ → Inode) → Disk → (i k : ℕ) → ℕ × Inode × Disk → Type 0
MappedAs sb inode d i k (a, ip, d') = Mapped sb inode d i k a ip d'

module _ (sb : Superblock) (inode : ℕ → Inode) (d : Disk) (s : IsSound sb inode d) (i : ℕ) where
  Mapped-stays :
      (k a : ℕ)
      → a ≡ slot (inode i) d k
      → (a ≡ 0 → IsFull sb d)
      → Mapped sb inode d i k a (inode i) d
  Mapped-stays k a e full = record {
    carries =
        subst (λ f. Carries sb inode d f d) (sym (update_id inode i))
          (record { sound = s; same = λ j o. refl; keeps = λ j k nz. refl });
    at_slot = e;
    fields = refl;
    or_full = full;
  }

  Mapped-grown :
      (k b : ℕ) (ip : Inode) (d' : Disk)
      → Grows sb inode d i k b (update inode i ip) d'
      → ip ≡ record (inode i) { addrs = ip.addrs }
      → Mapped sb inode d i k b ip d'
  Mapped-grown k b ip d' g e = record {
    carries = record {
      sound = Grows-IsSound sb inode d s i k b (update inode i ip) d' g;
      same = Grows-file_byte sb inode d s i k b (update inode i ip) d' g;
      keeps = Grows-slot sb inode d s i k b (update inode i ip) d' g;
    };
    at_slot = sym (
        sym (ap (λ (x : Inode). slot x d' k) (update_self inode i ip))
        ∙ g.slots i k
        ∙ rw (==_self i, ==_self k) refl);
    fields = e;
    or_full = λ z. absurd (omega (arith, g.above, z));
  }

  module _ (at k : ℕ) (here : slot (inode i) d k ≡ (inode i).addrs at)
      (grows : (b : ℕ) (d1 : Disk)
        → Fresh sb d b d1
        → (inode i).addrs at ≡ 0
        → Grows sb inode d i k b (update inode i (with_addr (inode i) at b)) d1) where
    new_direct-Mapped :
        (r : ℕ × Disk)
        → (inode i).addrs at ≡ 0
        → Taken sb d r
        → MappedAs sb inode d i k (new_direct at (inode i) r)
    new_direct-Mapped (zero, d') z (e, full) =
        subst (Mapped sb inode d i k 0 (inode i)) (sym e)
          (Mapped-stays k 0 (sym (here ∙ z)) (λ t. full))
    new_direct-Mapped (suc b, d') z f =
        Mapped-grown k (suc b) (with_addr (inode i) at (suc b)) d' (grows (suc b) d' f z) refl

    direct-Mapped : MappedAs sb inode d i k (direct sb at (inode i) d)
    direct-Mapped = elim (Bool-cases ((inode i).addrs at == 0)) [
      | inl none_yet ↦
          rw none_yet
            (new_direct-Mapped (balloc sb d) ((==_iff _ _).0 none_yet) (balloc-Taken sb d s.volume))
      | inr there ↦
          rw there (
            Mapped-stays k ((inode i).addrs at) (sym here) (λ z. absurd (ground (arith, z, there))))
    ]

  -- A word of the indirect block of inode `i`.
  module _ (w : ℕ) (lt : w < nindirect) (nz : (inode i).addrs ndirect ≢ 0) where
    abbrev ind : ℕ
    ind = (inode i).addrs ndirect

    here : slot (inode i) d (w + ndirect) ≡ word_at (d.bytes ind) w
    here =
        let back : w + ndirect - ndirect ≡ w = omega arith in
        slot_word (inode i) d (w + ndirect) (omega arith) (omega arith) nz
        ∙ ap (word_at (d.bytes ind)) back

    abbrev LeafAs : ℕ × Disk → Type 0
    LeafAs (a, d') = Mapped sb inode d i (w + ndirect) a (inode i) d'

    new_leaf-Mapped :
        (r : ℕ × Disk) → word_at (d.bytes ind) w ≡ 0 → Taken sb d r → LeafAs (new_leaf w ind r)
    new_leaf-Mapped (zero, d') z (e, full) =
        subst (Mapped sb inode d i (w + ndirect) 0 (inode i)) (sym e)
          (Mapped-stays (w + ndirect) 0 (sym (here ∙ z)) (λ t. full))
    new_leaf-Mapped (suc b, d') z f =
        Mapped-grown (w + ndirect) (suc b) (inode i) _
          (leaf-Grows sb inode d s (suc b) d' f i w lt nz (here ∙ z)) refl

    leaf-Mapped : LeafAs (leaf sb w ind d)
    leaf-Mapped = elim (Bool-cases (word_at (d.bytes ind) w == 0)) [
      | inl none_yet ↦
          rw none_yet
            (new_leaf-Mapped (balloc sb d) ((==_iff _ _).0 none_yet) (balloc-Taken sb d s.volume))
      | inr there ↦ rw there (
          Mapped-stays (w + ndirect) (word_at (d.bytes ind) w) (sym here)
            (λ z. absurd (ground (arith, z, there))))
    ]

pub Carries-trans :
    (sb : Superblock) (f g h : ℕ → Inode) (d1 d2 d3 : Disk)
    → Carries sb f d1 g d2
    → Carries sb g d2 h d3
    → Carries sb f d1 h d3
Carries-trans sb f g h d1 d2 d3 c c' = record {
  sound = c'.sound;
  same = λ i o. c'.same i o ∙ c.same i o;
  keeps = λ i k nz. c'.keeps i k (λ z. nz (sym (c.keeps i k nz) ∙ z)) ∙ c.keeps i k nz;
}

module _ (sb : Superblock) (inode : ℕ → Inode) (d : Disk) (s : IsSound sb inode d) (i : ℕ) where
  -- A second step for the same inode.
  Mapped-then :
      (k k' a a' : ℕ) (ip : Inode) (d1 d2 : Disk)
      → Mapped sb inode d i k a ip d1
      → Mapped sb (update inode i ip) d1 i k' a' (update inode i ip i) d2
      → Mapped sb inode d i k' a' ip d2
  Mapped-then k k' a a' ip d1 d2 m m' =
      let m2 =
        subst (λ x. Mapped sb (update inode i ip) d1 i k' a' x d2) (update_self inode i ip) m' in
      record {
        carries = Carries-trans sb inode (update inode i ip) (update inode i ip) d d1 d2 m.carries (
            subst (λ f. Carries sb (update inode i ip) d1 f d2) (update_twice inode i ip ip)
              m2.carries);
        at_slot = m2.at_slot;
        fields = m.fields;
        or_full = m2.or_full;
      }

  indirect-Mapped :
      (w : ℕ)
      → w < nindirect
      → (r : ℕ × Inode × Disk) → MappedAs sb inode d i maxfile r
      → MappedAs sb inode d i (w + ndirect) (indirect sb w r)
  indirect-Mapped w lt (zero, ip, d1) m = record {
    carries = m.carries;
    at_slot = no_leaf ip d1 (sym m.at_slot);
    fields = m.fields;
    or_full = λ z. m.or_full refl;
  }
    where
      no_leaf : (ip : Inode) (d : Disk) → ip.addrs ndirect ≡ 0 → 0 ≡ slot ip d (w + ndirect)
      no_leaf ip d z = ground arith
  indirect-Mapped w lt (suc ind, ip, d1) m =
      let inode1 = update inode i ip in
      let at : (inode1 i).addrs ndirect ≡ suc ind =
        ap (λ (x : Inode). x.addrs ndirect) (update_self inode i ip) ∙ sym m.at_slot in
      let nz : (inode1 i).addrs ndirect ≢ 0 = λ z. omega arith in
      let l = leaf-Mapped sb inode1 d1 m.carries.sound i w lt nz in
      let l' = subst (λ x. LeafAs sb inode1 d1 m.carries.sound i w lt nz (leaf sb w x d1)) at l in
      Mapped-then maxfile (w + ndirect) (suc ind) _ ip d1 _ m l'

  -- `bmap` of a block below `MAXFILE` does not panic. It answers the address of that block of the
  -- inode, or 0 with no block of the disk free. It keeps the inodes sound: all addresses are
  -- data blocks in use, at one position of one inode each. It changes no byte of any file, and of the
  -- inode it changes the addresses only.
  pub bmap-Mapped :
      (bn : ℕ)
      → bn < maxfile
      → (a : ℕ) × (ip : Inode) × (d' : Disk) × (bmap sb bn (inode i) d ≡ done (a, ip, d'))
        × Mapped sb inode d i bn a ip d'
  unfolding bmap
  bmap-Mapped bn lt = elim (Bool-cases (ltb bn ndirect)) [
    | inl low ↦
        let m =
          direct-Mapped sb inode d s i bn bn (rw low refl)
            (λ b d1 f. direct-Grows sb inode d s b d1 f i bn (ground arith)) in
        (_, _, _, rw low refl, m)
    | inr high ↦
        let m =
          direct-Mapped sb inode d s i ndirect maxfile refl
            (λ b d1 f. indirect-Grows sb inode d s b d1 f i) in
        let w_lt : bn - ndirect < nindirect = ground arith in
        let back : bn - ndirect + ndirect ≡ bn = ground arith in
        let ind : ltb (bn - ndirect) nindirect ≡ true = ground arith in
        (
          _,
          _,
          _,
          rw (high, ind) refl,
          subst
              (λ k.
                MappedAs sb inode d i k
                  (indirect sb (bn - ndirect) (direct sb ndirect (inode i) d)))
              back (indirect-Mapped (bn - ndirect) w_lt _ m),
        )
  ]
