-- ===== src/Kernel/Inode/Grow.antt =====
-- A block from `balloc` that takes its place at a position of an inode.
use mathlib.Core.Path.{subst}
use xv6_tp.Base.{
  ℕ, ◌+◌, ◌-◌, ◌*◌, ◌≤◌, ◌<◌, ◌≡◌, ◌≢◌, true, false, ◌&&◌, ◌||◌, ◌==◌, ltb, leb, if◌then◌else◌,
  arith, refl, Bool-cases, inl, inr, ==_iff, sym, ◌∙◌, ap, update, update_self, update_ne,
}
use xv6_tp.Kernel.Block.{Superblock, Disk, word_at, write_block}
use xv6_tp.Kernel.Block.Words.{==_self, put_word, word_at-put_self, word_at-put_ne, put_word_byte}
use xv6_tp.Kernel.Block.Alloc.{Fresh, unused-write, IsVolume-write}
use xv6_tp.Kernel.Inode.{Inode, ndirect, nindirect, maxfile}
use xv6_tp.Kernel.Inode.Slots.{slot, IsOwned, IsSound, Grows, not_free}

-- The inode with another address.
abbrev pub with_addr : Inode → (i b : ℕ) → Inode
with_addr ip i b = record ip { addrs = update ip.addrs i b }

-- A position reads the disk at the indirect block only.
pub slot_reads :
    (ip : Inode) (d d' : Disk) (k : ℕ)
    → (ip.addrs ndirect ≢ 0 → d'.bytes (ip.addrs ndirect) ≡ d.bytes (ip.addrs ndirect))
    → slot ip d' k ≡ slot ip d k
slot_reads ip d d' k h = elim (Bool-cases (ip.addrs ndirect == 0)) [
  | inl none_yet ↦ ground (arith, none_yet)
  | inr there ↦ let e = h (λ z. absurd (ground (arith, z, there))) in rw e refl
]

pub slot_word :
    (ip : Inode) (d : Disk) (k : ℕ)
    → ndirect ≤ k
    → k < maxfile
    → ip.addrs ndirect ≢ 0
    → slot ip d k ≡ word_at (d.bytes (ip.addrs ndirect)) (k - ndirect)
slot_word ip d k lo hi nz =
    let not_direct : ltb k ndirect ≡ false = ground arith in
    let not_ind : (k == maxfile) ≡ false = ground arith in
    let there : (ip.addrs ndirect == 0) ≡ false = ground arith in
    let inside : leb maxfile k ≡ false = ground arith in
    rw (not_direct, not_ind, there, inside) refl

slot-direct :
    (ip : Inode) (d : Disk) (bn b k : ℕ)
    → bn < ndirect
    → slot (with_addr ip bn b) d k ≡ (if k == bn then b else slot ip d k)
slot-direct ip d bn b k h = ground arith

slot-indirect :
    (ip : Inode) (d : Disk) (b k : ℕ)
    → ip.addrs ndirect ≡ 0
    → ((o : ℕ) → d.bytes b o ≡ 0)
    → slot (with_addr ip ndirect b) d k ≡ (if k == maxfile then b else slot ip d k)
slot-indirect ip d b k none_yet z =
    let w : word_at (d.bytes b) (k - ndirect) ≡ 0 = omega (
      arith,
      z (4 * (k - ndirect)),
      z (4 * (k - ndirect) + 1),
      z (4 * (k - ndirect) + 2),
      z (4 * (k - ndirect) + 3),
    ) in
    ground (arith, none_yet, w)

module _ (sb : Superblock) (inode : ℕ → Inode) (d : Disk) (s : IsSound sb inode d) (b : ℕ)
    (d1 : Disk) (f : Fresh sb d b d1) where
  fresh_keeps :
      (i k : ℕ)
      → slot (inode i) d k ≢ 0
      → d1.bytes (slot (inode i) d k) ≡ d.bytes (slot (inode i) d k)
  fresh_keeps i k nz =
      let o = s.owns i k nz in
      let lt : b < sb.size = omega (arith, f.first.below) in
      f.others (slot (inode i) d k) (not_free sb inode d s i k b f.first.passes nz)
        (λ e. omega (arith, o.above, e))

  fresh_slot : (i k : ℕ) → slot (inode i) d1 k ≡ slot (inode i) d k
  fresh_slot i k = slot_reads (inode i) d d1 k (λ nz. fresh_keeps i maxfile nz)

  module _ (i0 : ℕ) where
    -- The positions, told of inode `i0` and of the others.
    by_inode :
        (x : Inode) (k0 : ℕ) (d' : Disk)
        → ((k : ℕ) → slot x d' k ≡ (if k == k0 then b else slot (inode i0) d k))
        → ((i k : ℕ) → i0 ≢ i → slot (inode i) d' k ≡ slot (inode i) d k)
        → (i k : ℕ)
        → slot (update inode i0 x i) d' k
          ≡ (if (i == i0) && (k == k0) then b else slot (inode i) d k)
    by_inode x k0 d' this others i k = elim (Bool-cases (i0 == i)) [
      | inl e ↦
          let at : i0 ≡ i = (==_iff _ _).0 e in
          subst
            (λ i.
              slot (update inode i0 x i) d' k
              ≡ (if (i == i0) && (k == k0) then b else slot (inode i) d k))
            at (rw (update_self inode i0 x, ==_self i0) (this k))
      | inr ne ↦
          let o : (i == i0) ≡ false = ground arith in
          rw (ne, o) (others i k (λ z. absurd (ground (arith, z, ne))))
    ]

    -- What a direct block or the indirect block needs: the address that changes, and its position.
    fresh-Grows :
        (at k0 : ℕ)
        → slot (inode i0) d k0 ≡ 0
        → ((k : ℕ)
            → slot (with_addr (inode i0) at b) d1 k ≡ (if k == k0 then b else slot (inode i0) d1 k))
        → Grows sb inode d i0 k0 b (update inode i0 (with_addr (inode i0) at b)) d1
    fresh-Grows at k0 was new = record {
      slots =
          by_inode (with_addr (inode i0) at b) k0 d1
            (λ k. new k ∙ ap (λ z. if k == k0 then b else z) (fresh_slot i0 k))
            (λ i k ne. fresh_slot i k);
      was_none = was;
      was_free = f.first.passes;
      above = f.above;
      below = omega (arith, f.first.below);
      marks = f.marks;
      volume = f.volume;
      zeroed = f.zeroed;
      keeps = λ i k nz lt. fresh_keeps i k nz;
    }

    pub direct-Grows :
        (bn : ℕ)
        → bn < ndirect
        → (inode i0).addrs bn ≡ 0
        → Grows sb inode d i0 bn b (update inode i0 (with_addr (inode i0) bn b)) d1
    direct-Grows bn lt was =
        fresh-Grows bn bn (ground arith) (λ k. slot-direct (inode i0) d1 bn b k lt)

    pub indirect-Grows :
        (inode i0).addrs ndirect ≡ 0
        → Grows sb inode d i0 maxfile b (update inode i0 (with_addr (inode i0) ndirect b)) d1
    indirect-Grows was =
        fresh-Grows ndirect maxfile was (λ k. slot-indirect (inode i0) d1 b k was f.zeroed)

    -- A word of the indirect block.
    module _ (w : ℕ) (lt : w < nindirect) (nz : (inode i0).addrs ndirect ≢ 0) where
      abbrev ind : ℕ
      ind = (inode i0).addrs ndirect

      abbrev d2 : Disk
      d2 = write_block ind (put_word (d1.bytes ind) w b) d1

      ind-IsOwned : IsOwned sb d ind
      ind-IsOwned = s.owns i0 maxfile nz

      below : b < sb.size
      below = omega (arith, f.first.below)

      word_after :
          (i : ℕ) → word_at (d2.bytes ind) i ≡ (if i == w then b else word_at (d1.bytes ind) i)
      word_after i =
          ap (λ (g : ℕ → ℕ). word_at g i) (update_self d1.bytes ind (put_word (d1.bytes ind) w b))
          ∙ elim (Bool-cases (i == w)) [
            | inl e ↦
                let at : i ≡ w = (==_iff _ _).0 e in
                ap (word_at (put_word (d1.bytes ind) w b)) at
                ∙ word_at-put_self (d1.bytes ind) w b (omega (arith, below, s.laid_out.fits))
                ∙ rw e refl
            | inr e ↦
                word_at-put_ne (d1.bytes ind) w i b (λ z. absurd (ground (arith, z, e))) ∙ rw e refl
          ]

      this_slot :
          (k : ℕ) → slot (inode i0) d2 k ≡ (if k == w + ndirect then b else slot (inode i0) d k)
      this_slot k = elim (Bool-cases (ltb k ndirect || leb maxfile k)) [
        | inl out ↦
            let other : (k == w + ndirect) ≡ false = ground arith in
            rw other (outside (inode i0) d2 d k out)
        | inr inside ↦
            let lo : ndirect ≤ k = ground arith in
            let hi : k < maxfile = ground arith in
            let place : (k - ndirect == w) ≡ (k == w + ndirect) = ground arith in
            slot_word (inode i0) d2 k lo hi nz
            ∙ word_after (k - ndirect)
            ∙ rw place (
                ap (λ z. if k == w + ndirect then b else z)
                  (sym (slot_word (inode i0) d1 k lo hi nz) ∙ fresh_slot i0 k))
      ]
        where
          outside :
              (ip : Inode) (d d' : Disk) (k : ℕ)
              → (ltb k ndirect || leb maxfile k) ≡ true
              → slot ip d k ≡ slot ip d' k
          outside ip d d' k h = ground arith

      ne_ind :
          (i k : ℕ)
          → slot (inode i) d k ≢ 0
          → ((i ≡ i0) → (k ≡ maxfile) → ⊥)
          → ind ≢ slot (inode i) d k
      ne_ind i k snz other e = let (p, q) = s.apart i i0 k maxfile snz (sym e) in other p q

      pub leaf-Grows :
          slot (inode i0) d (w + ndirect) ≡ 0
          → Grows sb inode d i0 (w + ndirect) b (update inode i0 (inode i0)) d2
      leaf-Grows was =
          let block = put_word (d1.bytes ind) w b in
          record {
            slots = by_inode (inode i0) (w + ndirect) d2 this_slot (λ i k ne.
                slot_reads (inode i) d1 d2 k (λ inz.
                  let keep : slot (inode i) d maxfile ≢ 0 = inz in
                  update_ne d1.bytes ind ((inode i).addrs ndirect) block
                    (ne_ind i maxfile keep (λ p q. ne (sym p))))
                ∙ fresh_slot i k);
            was_none = was;
            was_free = f.first.passes;
            above = f.above;
            below = below;
            marks =
                λ x lt. unused-write sb ind block d1 (inr ind-IsOwned.above) x lt ∙ f.marks x lt;
            volume =
                IsVolume-write sb ind block d1 (inr ind-IsOwned.above) f.volume
                  (put_word_byte (d1.bytes ind) w b (f.volume.bytes ind));
            zeroed = λ o.
                let ne : ind ≢ b = not_free sb inode d s i0 maxfile b f.first.passes nz in
                ap (λ (g : ℕ → ℕ). g o) (update_ne d1.bytes ind b block ne) ∙ f.zeroed o;
            keeps = λ i k snz lt.
                update_ne d1.bytes ind (slot (inode i) d k) block
                  (ne_ind i k snz (λ p q. omega arith))
                ∙ fresh_keeps i k snz;
          }
