-- ===== src/Kernel/Itable/Get.antt =====
-- `iget`, `idup` and `iput` as operations on the counts of references.
use xv6_tp.Base.{
  ℕ, ◌+◌, ◌<◌, ◌≡◌, ◌≢◌, ◌⊎◌, true, false, ◌&&◌, ◌==◌, if◌then◌else◌, arith, refl, Bool-cases,
  Option-cases, inl, inr, sym, ◌∙◌, ap, find_first, find_first_sound, find_first-none, update,
  update_self, update_ne,
}
use xv6_tp.Base.Run.{done, panics}
use xv6_tp.Kernel.Inode.{World, Inode}
use xv6_tp.Kernel.Itable.{ninode, matches, is_spare, set_inode, new_inode, iget, idup}
use xv6_tp.Kernel.Itable.Count.{
  IsTable, count, matches_slot, count-none, count-some, Changes, Changes-IsTable, Changes-count,
}

-- One more reference to an inode, or one less.
abbrev pub Counts : (t t' : ℕ → Inode) (dev inum r : ℕ) → Type 0
Counts t t' dev inum r =
    (dev' inum' : ℕ)
    → count t' dev' inum' ≡ (if (dev' == dev) && (inum' == inum) then r else count t dev' inum')

-- `iget` answered slot `i`.
pub record Got (dev inum : ℕ) (w : World) (i : ℕ) (w' : World) : Type 0 where
  pub below : i < ninode
  pub is_dev : (w'.inode i).dev ≡ dev
  pub is_inum : (w'.inode i).inum ≡ inum
  pub counts : Counts w.inode w'.inode dev inum (count w.inode dev inum + 1)
  pub table : IsTable w'.inode
  pub others : (j : ℕ) → i ≢ j → w'.inode j ≡ w.inode j
  pub same_disk : w'.disk ≡ w.disk
  pub stale : count w.inode dev inum ≡ 0 → (w'.inode i).valid ≡ false

changed-Got :
    (dev inum : ℕ) (w : World) (i : ℕ) (ip : Inode)
    → IsTable w.inode
    → Changes w.inode (update w.inode i ip) i dev inum (count w.inode dev inum + 1)
    → (count w.inode dev inum ≡ 0 → ip.valid ≡ false)
    → Got dev inum w i (set_inode i ip w)
changed-Got dev inum w i ip u c stale = record {
  below = c.below;
  is_dev = c.at_dev;
  is_inum = c.at_inum;
  counts = Changes-count w.inode (update w.inode i ip) i dev inum _ u c;
  table = Changes-IsTable w.inode (update w.inode i ip) i dev inum _ u c;
  others = c.others;
  same_disk = refl;
  stale = λ z. ap (λ (x : Inode). x.valid) (update_self w.inode i ip) ∙ stale z;
}

-- A slot that gets inode `ip`.
pub update-Changes :
    (t : ℕ → Inode) (i dev inum r : ℕ) (ip : Inode)
    → i < ninode
    → ip.dev ≡ dev
    → ip.inum ≡ inum
    → ip.ref ≡ r
    → ((t i).ref ≡ 0) ⊎ (((t i).dev ≡ dev) × ((t i).inum ≡ inum))
    → ((j : ℕ) → j < ninode → i ≢ j → matches t dev inum j ≡ false)
    → Changes t (update t i ip) i dev inum r
update-Changes t i dev inum r ip lt d n e before alone =
    let at = update_self t i ip in
    record {
      below = lt;
      at_dev = ap (λ (x : Inode). x.dev) at ∙ d;
      at_inum = ap (λ (x : Inode). x.inum) at ∙ n;
      at_ref = ap (λ (x : Inode). x.ref) at ∙ e;
      before = before;
      others = λ j ne. update_ne t i j ip ne;
      alone = alone;
    }

-- In a table, no slot but `i` has the inode of slot `i`.
pub others_differ :
    (t : ℕ → Inode) (dev inum i : ℕ)
    → IsTable t
    → i < ninode
    → matches t dev inum i ≡ true
    → (j : ℕ) → j < ninode
    → i ≢ j
    → matches t dev inum j ≡ false
others_differ t dev inum i u lt m j lt' ne = elim (Bool-cases (matches t dev inum j)) [
  | inr no_match ↦ no_match
  | inl m' ↦
      let (r, d, n) = matches_slot t dev inum i m in
      let (r', d', n') = matches_slot t dev inum j m' in
      absurd (ne (u i j lt lt' r r' (d ∙ sym d') (n ∙ sym n')))
]

-- `iget` answers a slot of the table that has the inode, with one reference more than the inode had
-- before, and a new slot is not valid yet; the counts of all other inodes, all other slots and the
-- disk stay, and no two slots in use have the same inode. It panics only if the inode
-- is not in the table and every slot is in use.
pub iget-Got :
    (dev inum : ℕ) (w : World)
    → IsTable w.inode
    → ((i : ℕ) × (w' : World) × (iget dev inum w ≡ done (i, w')) × Got dev inum w i w')
      ⊎ ((iget dev inum w ≡ panics)
          × (count w.inode dev inum ≡ 0)
          × ((j : ℕ) → j < ninode → (w.inode j).ref ≢ 0))
unfolding iget idup
iget-Got dev inum w u = elim (Option-cases (find_first (matches w.inode dev inum) ninode)) [
  | inr (i, e) ↦
      let f = find_first_sound (matches w.inode dev inum) ninode i e in
      let lt : i < ninode = omega (arith, f.below) in
      let (r, d, n) = matches_slot w.inode dev inum i f.passes in
      let now : count w.inode dev inum ≡ (w.inode i).ref =
        count-some w.inode dev inum i u lt f.passes in
      let ip : Inode = record (w.inode i) { ref = (w.inode i).ref + 1 } in
      inl (
        i,
        set_inode i ip w,
        rw e refl,
        changed-Got dev inum w i ip u
            (update-Changes w.inode i dev inum _ ip lt d n (omega arith) (inr (d, n))
              (others_differ w.inode dev inum i u lt f.passes))
            (λ z. absurd (r (sym now ∙ z))),
      )
  | inl e ↦
      let none_at = find_first-none (matches w.inode dev inum) ninode e in
      let none_now : count w.inode dev inum ≡ 0 = count-none w.inode dev inum none_at in
      elim (Option-cases (find_first (is_spare w.inode) ninode)) [
        | inl full ↦
            let busy = find_first-none (is_spare w.inode) ninode full in
            inr (rw (e, full) refl, none_now, λ j lt z. absurd (ground (arith, busy j lt, z)))
        | inr (i, at) ↦
            let f = find_first_sound (is_spare w.inode) ninode i at in
            let free : (w.inode i).ref ≡ 0 = ground (arith, f.passes) in
            let ip : Inode = new_inode dev inum (w.inode i) in
            inl (
              i,
              set_inode i ip w,
              rw (e, at) refl,
              changed-Got dev inum w i ip u
                  (update-Changes w.inode i dev inum _ ip (omega (arith, f.below)) refl refl
                    (omega arith) (inl free) (λ j lt ne. none_at j lt))
                  (λ z. refl),
            )
      ]
]
