-- ===== src/Kernel/Itable/Put.antt =====
-- `iput`: a reference less, and the end of an inode without links.
use mathlib.Core.Path.{subst}
use xv6_tp.Base.{
  ℕ, ◌-◌, ◌<◌, ◌≡◌, ◌≢◌, Bool, true, false, ◌&&◌, ◌==◌, ltb, arith, refl, Bool-cases, inl, inr, sym,
  ◌∙◌, ap, update, update_self, update_ne,
}
use xv6_tp.Base.Run.{done}
use xv6_tp.Kernel.Block.{Superblock, Disk}
use xv6_tp.Kernel.Block.Scan.{unused}
use xv6_tp.Kernel.Inode.{World, Inode, itrunc, iupdate, iblock, dinode_of, half_at}
use xv6_tp.Kernel.Inode.Slots.{slot, live, IsSound}
use xv6_tp.Kernel.Inode.Truncated.{Truncated, itrunc-Truncated}
use xv6_tp.Kernel.Inode.Update.{iupdate-unused}
use xv6_tp.Kernel.Itable.{ninode, matches, set_inode, drop_ref, free_inode, iput, is_unallocated}
use xv6_tp.Kernel.Itable.Count.{IsTable, count, count-some, Changes, Changes-IsTable, Changes-count}
use xv6_tp.Kernel.Itable.Get.{Counts, update-Changes, others_differ}

-- The last reference to an inode without links.
abbrev pub is_last : Inode → Bool
is_last ip = ip.ref == 1 && ip.valid && ip.nlink == 0

-- The inode is free on the disk, and so are the blocks that it had.
pub record Gone (sb : Superblock) (w : World) (i : ℕ) (d : Disk) : Type 0 where
  pub unallocated : is_unallocated sb d (w.inode i).inum ≡ true
  pub freed :
      (k : ℕ) → slot (w.inode i) w.disk k ≢ 0 → unused sb d (slot (w.inode i) w.disk k) ≡ true

-- `iput` of slot `i` came to `w'`.
pub record Dropped (sb : Superblock) (w : World) (i : ℕ) (w' : World) : Type 0 where
  pub answer : iput sb i w ≡ done w'
  pub table : IsTable w'.inode
  pub counts :
      Counts w.inode w'.inode
        (w.inode i).dev
        (w.inode i).inum
        (count w.inode (w.inode i).dev (w.inode i).inum - 1)
  pub others : (j : ℕ) → i ≢ j → w'.inode j ≡ w.inode j
  pub last : is_last (w.inode i) ≡ true → Gone sb w i w'.disk
  pub not_last : is_last (w.inode i) ≡ false → w'.disk ≡ w.disk

module _ (sb : Superblock) (w : World) (i : ℕ) (u : IsTable w.inode) (lt : i < ninode)
    (held : (w.inode i).ref ≢ 0) where
  abbrev ip : Inode
  ip = w.inode i

  here : matches w.inode ip.dev ip.inum i ≡ true
  here = ground (arith, held)

  now : count w.inode ip.dev ip.inum ≡ ip.ref
  now = count-some w.inode ip.dev ip.inum i u lt here

  plain : is_last ip ≡ false → Dropped sb w i (drop_ref i w)
  unfolding iput
  plain no_end =
      let c =
        update-Changes w.inode i ip.dev ip.inum (count w.inode ip.dev ip.inum - 1)
          (record ip { ref = ip.ref - 1 }) lt refl refl (omega (arith, now)) (inr (refl, refl))
          (others_differ w.inode ip.dev ip.inum i u lt here) in
      record {
        answer = rw no_end refl;
        table =
            Changes-IsTable w.inode (update w.inode i (record ip { ref = ip.ref - 1 })) i ip.dev
              ip.inum _ u c;
        counts =
            Changes-count w.inode (update w.inode i (record ip { ref = ip.ref - 1 })) i ip.dev
              ip.inum _ u c;
        others = c.others;
        last = λ e. absurd (ground (arith, e, no_end));
        not_last = λ e. refl;
      }

  -- The table once slot `i` has `x`, of the same inode, and then a reference less.
  twice-Changes :
      (x : Inode)
      → x.dev ≡ ip.dev
      → x.inum ≡ ip.inum
      → x.ref ≡ ip.ref
      → Changes w.inode
          (drop_ref i (set_inode i x w)).inode
          i
          ip.dev
          ip.inum
          (count w.inode ip.dev ip.inum - 1)
  twice-Changes x d n r =
      let f = update w.inode i x in
      let y : Inode = record (f i) { ref = (f i).ref - 1 } in
      let at_i : f i ≡ x = update_self w.inode i x in
      let at_y : update f i y i ≡ y = update_self f i y in
      record {
        below = lt;
        at_dev = ap (λ (x : Inode). x.dev) at_y ∙ ap (λ (x : Inode). x.dev) at_i ∙ d;
        at_inum = ap (λ (x : Inode). x.inum) at_y ∙ ap (λ (x : Inode). x.inum) at_i ∙ n;
        at_ref =
            ap (λ (x : Inode). x.ref) at_y ∙ omega (arith, ap (λ (x : Inode). x.ref) at_i, r, now);
        before = inr (refl, refl);
        others = λ j ne. update_ne f i j y ne ∙ update_ne w.inode i j x ne;
        alone = others_differ w.inode ip.dev ip.inum i u lt here;
      }

  unallocated_after :
      (x : Inode) (d : Disk)
      → x.inum ≡ ip.inum
      → is_unallocated sb (iupdate sb (record x { type = 0 }) d) ip.inum ≡ true
  unfolding iupdate
  unallocated_after x d e =
      let b = iblock x.inum sb in
      let block = dinode_of (record x { type = 0 }) (d.bytes b) in
      let at : update d.bytes b block (iblock ip.inum sb) ≡ block =
        ap (λ n. update d.bytes b block (iblock n sb)) (sym e) ∙ update_self d.bytes b block in
      ap (λ (g : ℕ → ℕ). half_at g 0 == 0) at

  final :
      (x : Inode) (d' : Disk) (s : IsSound sb (live w.inode) w.disk)
      → ip.inum < sb.ninodes
      → is_last ip ≡ true
      → live w.inode i ≡ ip
      → Truncated sb (live w.inode) w.disk s i x d'
      → Dropped sb w i (drop_ref i (free_inode sb i w (x, d')))
  unfolding iput
  final x d' s known end same t =
      let fields : x ≡ record ip { addrs = x.addrs; size = 0 } =
        t.fields ∙ ap (λ (y : Inode). record y { addrs = x.addrs; size = 0 }) same in
      let n : x.inum ≡ ip.inum = ap (λ (x : Inode). x.inum) fields in
      let freed_x : Inode = record x { type = 0; valid = false } in
      let c =
        twice-Changes freed_x (ap (λ (x : Inode). x.dev) fields) n
          (ap (λ (x : Inode). x.ref) fields) in
      let run : itrunc sb ip w.disk ≡ done (x, d') =
        ap (λ y. itrunc sb y w.disk) (sym same) ∙ t.answer in
      let inum : x.inum < sb.ninodes = omega arith in
      record {
        answer = rw (end, run) refl;
        table =
            Changes-IsTable w.inode (drop_ref i (set_inode i freed_x w)).inode i ip.dev ip.inum _ u
              c;
        counts =
            Changes-count w.inode (drop_ref i (set_inode i freed_x w)).inode i ip.dev ip.inum _ u c;
        others = c.others;
        last = λ e. record {
          unallocated = unallocated_after x d' n;
          freed = λ k nz.
              let at_k = ap (λ y. slot y w.disk k) same in
              let nz' : slot (live w.inode i) w.disk k ≢ 0 = λ z. nz (sym at_k ∙ z) in
              let o = s.owns i k nz' in
              let free_now = t.freed k nz' in
              let stays =
                iupdate-unused sb (update (live w.inode) i x) d' t.sound (record x { type = 0 })
                  inum (slot (live w.inode i) w.disk k) o.below in
              subst (λ a. unused sb (iupdate sb (record x { type = 0 }) d') a ≡ true) at_k
                (stays ∙ free_now);
        };
        not_last = λ e. absurd (ground (arith, e, end));
      }

  -- `iput` of a slot in use ends and does not panic, if no two slots in use have the same inode, the
  -- inode's number is below the number of inodes, and the inodes in use that were read from the disk
  -- are sound: each of their addresses is a data block marked as used, at one position of one
  -- inode. The inode then has one reference less; all other counts and slots stay, and no two
  -- slots in use have the same inode. If it was the last reference to an inode without links, the
  -- inode is unallocated on the disk and the blocks that it had are free; otherwise the disk does
  -- not change.
  pub iput-Dropped :
      IsSound sb (live w.inode) w.disk → ip.inum < sb.ninodes → (w' : World) × Dropped sb w i w'
  iput-Dropped s known = elim (Bool-cases (is_last ip)) [
    | inr no_end ↦ (drop_ref i w, plain no_end)
    | inl end ↦
        let valid : (ip.valid && ltb 0 ip.ref) ≡ true = ground (arith, end) in
        let same : live w.inode i ≡ ip = rw valid refl in
        let live_known : (live w.inode i).inum < sb.ninodes =
          omega (arith, ap (λ (x : Inode). x.inum) same, known) in
        let (x, d', t) = itrunc-Truncated sb (live w.inode) w.disk s i live_known in
        (drop_ref i (free_inode sb i w (x, d')), final x d' s known end same t)
  ]
