-- ===== src/Kernel/Inode/Writei.antt =====
-- All of `writei`.
use xv6_tp.Base.{
  ℕ, ◌+◌, ◌*◌, ◌/◌, ◌%◌, ◌^◌, ◌≤◌, ◌<◌, ◌≡◌, ◌≢◌, ◌⊎◌, false, ◌||◌, ◌==◌, ltb, if◌then◌else◌, arith,
  refl, Bool-cases, inl, inr, sym, ◌∙◌, ap, update, pos,
}
use xv6_tp.Base.Run.{done, ◌>>=◌}
use xv6_tp.Kernel.File.Transfer.{bsize}
use xv6_tp.Kernel.File.Written.{patched}
use xv6_tp.Kernel.Block.{Superblock, Disk}
use xv6_tp.Kernel.Block.Bits.{Bytes}
use xv6_tp.Kernel.Inode.{Inode, maxfile, iupdate}
use xv6_tp.Kernel.Inode.Copies.{grown, write_end, writei}
use xv6_tp.Kernel.Inode.Slots.{slot, byte_in, file_byte, IsSound}
use xv6_tp.Kernel.Inode.Map.{IsFull}
use xv6_tp.Kernel.Inode.WriteLoop.{write_loop-Looped, at_end}
use xv6_tp.Kernel.Inode.Update.{
  slot_same, IsSound-as, iupdate-IsSound, iupdate-unused, iupdate-file_byte,
}

slot-grown : (off : ℕ) (ip : Inode) (d : Disk) (k : ℕ) → slot (grown off ip) d k ≡ slot ip d k
slot-grown off ip d k = elim (Bool-cases (ltb ip.size off)) [
  | inl e ↦ rw e refl
  | inr e ↦ rw e refl
]

slot-update-grown :
    (f : ℕ → Inode) (i off : ℕ) (ip : Inode) (d : Disk) (j k : ℕ)
    → slot (update f i (grown off ip) j) d k ≡ slot (update f i ip j) d k
slot-update-grown f i off ip d j k = elim (Bool-cases (i == j)) [
  | inl e ↦ rw e (slot-grown off ip d k)
  | inr e ↦ rw e refl
]

grown-inum : (off : ℕ) (ip : Inode) → (grown off ip).inum ≡ ip.inum
grown-inum off ip = elim (Bool-cases (ltb ip.size off)) [ inl e ↦ rw e refl | inr e ↦ rw e refl ]

grown-size :
    (off : ℕ) (ip : Inode)
    → grown off ip ≡ record ip { size = if ltb ip.size off then off else ip.size }
grown-size off ip = elim (Bool-cases (ltb ip.size off)) [ inl e ↦ rw e refl | inr e ↦ rw e refl ]

-- The inode behind a write that ended at `off`.
abbrev pub size_after : (off : ℕ) → Inode → ℕ
size_after off ip = if ltb ip.size off then off else ip.size

grown-fields :
    (off : ℕ) (ip0 ip : Inode)
    → ip ≡ record ip0 { addrs = ip.addrs }
    → grown off ip ≡ record ip0 { addrs = (grown off ip).addrs; size = size_after off ip0 }
grown-fields off ip0 ip e =
    let a = ap (λ (x : Inode). x.addrs) (grown-size off ip) in
    grown-size off ip
    ∙ ap (λ (x : Inode). record x { addrs = ip.addrs; size = size_after off x }) e
    ∙ ap (λ (z : ℕ → ℕ). record ip0 { addrs = z; size = size_after off ip0 }) (sym a)

module _ (sb : Superblock) (reach : (addr n : ℕ) → ℕ) (mem : ℕ → ℕ) where
  -- What a call of `writei` that is not refused comes to.
  pub record Accepted (inode : ℕ → Inode) (d : Disk) (i src off n : ℕ) : Type 0 where
    pub m : ℕ
    pub ip : Inode
    pub d' : Disk
    pub answer : writei reach sb mem src off n (inode i) d ≡ done (pos m, ip, d')
    pub most : m ≤ n
    pub sound : IsSound sb (update inode i ip) d'
    pub fields : ip ≡ record (inode i) { addrs = ip.addrs; size = size_after (off + m) (inode i) }
    pub keeps :
        (j k : ℕ) → slot (inode j) d k ≢ 0 → slot (update inode i ip j) d' k ≡ slot (inode j) d k
    pub there : (o : ℕ) → off ≤ o → o < off + m → slot (update inode i ip i) d' (o / bsize) ≢ 0
    pub content :
        (j o : ℕ)
        → file_byte (update inode i ip j) d' o
          ≡ patched mem i src off m (λ j o. file_byte (inode j) d o) j o
    pub ended : (m ≡ n) ⊎ IsFull sb d'

  -- `writei` to an inode of sound inodes, of memory that `either_copyin` reaches and that does not
  -- wrap around, to a place in the file or at its end that leaves it within its greatest size, ends
  -- and has no panic but that of `log_write` on too big a transaction: the log is taken to have room
  -- for the blocks that are written. It answers some `m` and puts the first `m` bytes of the memory,
  -- in order, into the file at the offset; no other byte of a file changes. `m` is `n` unless the
  -- disk is full. The size grows to the end of what was written, and the other fields but the
  -- addresses stay. The inodes stay sound.
  pub writei-Accepted :
      (inode : ℕ → Inode) (d : Disk) (i src off n : ℕ)
      → Bytes mem
      → IsSound sb inode d
      → (inode i).inum < sb.ninodes
      → off ≤ (inode i).size
      → off + n ≤ maxfile * bsize
      → src + n < 2 ^ 64
      → ((a k : ℕ) → src ≤ a → a + k ≤ src + n → reach a k ≡ k)
      → Accepted inode d i src off n
  unfolding writei
  writei-Accepted inode d i src off n mem_bytes s known within small fits all =
      let l =
        write_loop-Looped sb reach mem mem_bytes n n inode d s i src off 0 (omega arith)
          (omega arith) (omega arith) (omega arith) (λ a k lo hi. all a k lo (omega arith)) in
      let f = update inode i l.ip in
      let ip = grown (off + l.m) l.ip in
      let inum : ip.inum < sb.ninodes =
        omega
          (arith, known, grown-inum (off + l.m) l.ip, ap (λ (x : Inode). x.inum) l.wrote.fields) in
      let slots : (j k : ℕ) → slot (update inode i ip j) l.d' k ≡ slot (f j) l.d' k =
        slot-update-grown inode i (off + l.m) l.ip l.d' in
      let s1 =
        IsSound-as sb f (update inode i ip) l.d' l.d' l.wrote.sound l.wrote.sound.volume
          (λ x lt. refl) slots in
      let ok : (ltb (inode i).size off
            || ltb ((off + n) % 2 ^ 32) off
            || ltb (maxfile * bsize) ((off + n) % 2 ^ 32))
          ≡ false =
        ground arith in
      record {
        m = l.m;
        ip = ip;
        d' = iupdate sb ip l.d';
        answer = rw ok (
            ap (λ r. r >>= (λ r. done (write_end sb r)))
              (l.answer ∙ at_end sb reach mem mem_bytes l.ip l.d' (omega arith) refl));
        most = omega (arith, l.most);
        sound = iupdate-IsSound sb (update inode i ip) l.d' s1 ip inum;
        fields = grown-fields (off + l.m) (inode i) l.ip l.wrote.fields;
        keeps = λ j k nz.
            slot_same sb (update inode i ip) l.d' s1 ip inum j k ∙ slots j k ∙ l.wrote.keeps j k nz;
        there = λ o lo hi z. l.wrote.there o lo hi (
            sym
              (slot_same sb (update inode i ip) l.d' s1 ip inum i (o / bsize) ∙ slots i (o / bsize))
            ∙ z);
        content = λ j o.
            iupdate-file_byte sb (update inode i ip) l.d' s1 ip inum j o
            ∙ ap (λ a. byte_in a o l.d') (slots j (o / bsize))
            ∙ l.wrote.content j o;
        ended = elim l.ended [
          | inl e ↦ inl (omega arith)
          | inr full ↦
              inr (λ x lt. iupdate-unused sb (update inode i ip) l.d' s1 ip inum x lt ∙ full x lt)
        ];
      }
