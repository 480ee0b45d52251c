-- ===== src/Kernel/Inode/Fine.antt =====
-- The invariant of the inodes in use, kept by `writei` and `readi`; `readi` after `writei`.
use xv6_tp.Base.{
  ℕ, ◌+◌, ◌-◌, ◌*◌, ◌/◌, ◌^◌, ◌≤◌, ◌<◌, ◌≡◌, ◌≢◌, ◌&&◌, ◌==◌, ltb, leb, if◌then◌else◌, arith, refl,
  Bool-cases, inl, inr, ==_iff, sym, ◌∙◌, ap, update, update_self, pos,
}
use xv6_tp.Base.Run.{done}
use xv6_tp.Kernel.File.Transfer.{bsize}
use xv6_tp.Kernel.Block.{Superblock, Disk}
use xv6_tp.Kernel.Inode.{Inode, maxfile, paste}
use xv6_tp.Kernel.Inode.Copies.{readi, clip}
use xv6_tp.Kernel.Inode.Slots.{slot, file_byte, IsSound}
use xv6_tp.Kernel.Inode.Writei.{Accepted, size_after}
use xv6_tp.Kernel.Inode.Readi.{readi-ReadLooped}

-- Files that are all right: the inodes are sound, each file has a block for every byte of its size,
-- which is at most the greatest, and each inode has its number. The inodes of a table are those
-- that `live` makes of its slots.
pub record IsFine (sb : Superblock) (inode : ℕ → Inode) (d : Disk) : Type 0 where
  pub sound : IsSound sb inode d
  pub dense : (i o : ℕ) → o < (inode i).size → slot (inode i) d (o / bsize) ≢ 0
  pub bounded : (i : ℕ) → (inode i).size ≤ maxfile * bsize
  pub known : (i : ℕ) → (inode i).inum < sb.ninodes

pub at_updated {ℓ κ} :
    {A : Type ℓ} (P : A → Type κ) (f : ℕ → A) (i : ℕ) (a : A)
    → P a
    → ((j : ℕ) → P (f j))
    → (j : ℕ) → P (update f i a j)
at_updated P f i a here there j = elim (Bool-cases (i == j)) [
  | inl e ↦ rw e here
  | inr e ↦ rw e (there j)
]

paste_as :
    (g h to : ℕ → ℕ) (off src dst m x : ℕ)
    → ((y : ℕ) → y < m → g (off + y) ≡ h (src + y))
    → paste g off dst m to x ≡ paste h src dst m to x
paste_as g h to off src dst m x same = elim (Bool-cases (leb dst x && ltb x (dst + m))) [
  | inl e ↦ rw e (same (x - dst) (ground (arith, e)))
  | inr e ↦ rw e refl
]

module _ (sb : Superblock) (inode : ℕ → Inode) (d : Disk) (w : IsFine sb inode d) where
  module _ (reach : (addr n : ℕ) → ℕ) (mem : ℕ → ℕ) (i src off n : ℕ)
      (r : Accepted sb reach mem inode d i src off n) (within : off ≤ (inode i).size)
      (small : off + n ≤ maxfile * bsize) where
    still_dense :
        (j o : ℕ)
        → o < (update inode i r.ip j).size
        → slot (update inode i r.ip j) r.d' (o / bsize) ≢ 0
    still_dense j o lt z = elim (Bool-cases (ltb o (inode j).size)) [
      | inl before ↦ let nz = w.dense j o (ground arith) in nz (sym (r.keeps j (o / bsize) nz) ∙ z)
      | inr behind ↦ elim (Bool-cases (i == j)) [
        | inr other ↦
            let same : (update inode i r.ip j).size ≡ (inode j).size = rw other refl in
            absurd (ground (arith, same))
        | inl this ↦
            let at : i ≡ j = (==_iff _ _).0 this in
            let new : (update inode i r.ip j).size ≡ size_after (off + r.m) (inode i) =
              rw this (ap (λ (x : Inode). x.size) r.fields) in
            let size_i : (inode i).size ≡ (inode j).size = ap (λ j. (inode j).size) at in
            let lo : off ≤ o = ground arith in
            let hi : o < off + r.m = ground arith in
            r.there o lo hi (ap (λ j. slot (update inode i r.ip j) r.d' (o / bsize)) at ∙ z)
      ]
    ]

    pub writei-IsFine : IsFine sb (update inode i r.ip) r.d'
    writei-IsFine =
        let size : r.ip.size ≡ size_after (off + r.m) (inode i) =
          ap (λ (x : Inode). x.size) r.fields in
        record {
          sound = r.sound;
          dense = still_dense;
          bounded =
              at_updated (λ (x : Inode). x.size ≤ maxfile * bsize) inode i r.ip
                (ground (arith, size, r.most, w.bounded i)) w.bounded;
          known =
              at_updated (λ (x : Inode). x.inum < sb.ninodes) inode i r.ip
                (omega (arith, ap (λ (x : Inode). x.inum) r.fields, w.known i)) w.known;
        }

    written :
        (src off m y was : ℕ)
        → y < m
        → (if (i == i) && leb off (off + y) && ltb (off + y) (off + m)
            then mem (src + (off + y - off))
            else was)
          ≡ mem (src + y)
    written src off m y was lt =
        let at : src + (off + y - off) ≡ src + y = omega arith in ground (arith, at)

    -- What `readi` finds of the bytes that were written.
    pub record ReadBack (reach_out : (addr n : ℕ) → ℕ) (dst : ℕ) (mem2 : ℕ → ℕ) : Type 0 where
      pub mem3 : ℕ → ℕ
      pub ip : Inode
      pub d'' : Disk
      pub answer : readi reach_out sb dst off r.m mem2 r.ip r.d' ≡ done (pos r.m, mem3, ip, d'')
      pub content : (x : ℕ) → mem3 x ≡ paste mem src dst r.m mem2 x

    -- `readi` of the bytes that a `writei` wrote: in files that are all right (sound, with a block for
    -- each byte of their sizes), `writei` of memory that is there, to a place in the file or at its
    -- end that leaves it within its greatest size, answered `m`. Then `readi` at the same offset into
    -- memory that `either_copyout` reaches and that does not wrap around answers `m` and copies the
    -- bytes that were written: byte by byte the destination then has what the source of the write
    -- had, and the rest of the memory stays.
    pub readi-writei :
        (reach_out : (addr n : ℕ) → ℕ) (dst : ℕ) (mem2 : ℕ → ℕ)
        → dst + r.m < 2 ^ 64
        → ((a k : ℕ) → dst ≤ a → a + k ≤ dst + r.m → reach_out a k ≡ k)
        → ReadBack reach_out dst mem2
    readi-writei reach_out dst mem2 fits all =
        let f = update inode i r.ip in
        let fine = writei-IsFine in
        let same : f i ≡ r.ip = update_self inode i r.ip in
        let size : (f i).size ≡ size_after (off + r.m) (inode i) =
          ap (λ (x : Inode). x.size) (same ∙ r.fields) in
        let l =
          readi-ReadLooped sb reach_out f r.d' fine.sound i dst off r.m mem2 (ground (arith, size))
            (fine.bounded i) (omega (arith, r.most)) fits all
            (λ o lo hi. fine.dense i o (omega arith)) in
        let whole : clip (f i).size off r.m ≡ r.m = ground (arith, size, r.most) in
        record {
          mem3 = l.mem';
          ip = l.ip;
          d'' = l.d';
          answer =
              ap (λ x. readi reach_out sb dst off r.m mem2 x r.d') (sym same)
              ∙ l.answer
              ∙ ap (λ z. done (pos z, l.mem', l.ip, l.d')) whole;
          content = λ x.
              l.got.content x
              ∙ ap (λ z. paste (file_byte (f i) r.d') off dst z mem2 x) (omega (arith, whole))
              ∙ paste_as (file_byte (f i) r.d') mem mem2 off src dst r.m x (λ y lt.
                r.content i (off + y) ∙ written src off r.m y (file_byte (inode i) d (off + y)) lt);
        }
