-- ===== src/Kernel/Dir/Answers.antt =====
-- What `dirlookup` and `isdirempty` answer.
use xv6_tp.Base.{
  ℕ, ◌+◌, ◌*◌, ◌/◌, ◌%◌, ◌^◌, ◌&&◌, ltb, ◌≤◌, ◌<◌, ◌≡◌, ◌≢◌, ◌⊎◌, ◌↔◌, Bool, true, false, ◌==◌,
  Option, none, some, arith, refl, Bool-cases, inl, inr, ==_iff, sym, ◌∙◌, ap, update, ℤ, pos,
  negsuc,
}
use xv6_tp.Base.Run.{Run, done, panics, ◌>>=◌}
use xv6_tp.Kernel.File.Transfer.{bsize, t_dir}
use xv6_tp.Kernel.Fs.{dirsiz}
use xv6_tp.Kernel.Str.{Memory, strncmp}
use xv6_tp.Kernel.Str.Compares.{Agree, strncmp-Agree}
use xv6_tp.Kernel.Block.{Superblock, Disk}
use xv6_tp.Kernel.Inode.{World, Inode, maxfile, half_at}
use xv6_tp.Kernel.Inode.Slots.{live, IsSound}
use xv6_tp.Kernel.Inode.Readi.{IsThere}
use xv6_tp.Kernel.Itable.{ninode, iget}
use xv6_tp.Kernel.Itable.Count.{IsTable}
use xv6_tp.Kernel.Itable.Get.{Got, iget-Got}
use xv6_tp.Kernel.Dir.{
  de_size, kernel_reach, namecmp, is_zero, has_name, is_used, entry_fuel, entries, get_found,
  none_used, dirlookup, isdirempty,
}
use xv6_tp.Kernel.Dir.Lookup.{Looks, Looks-start, with_entry, entries-Searched}

-- A directory that can be read: every byte of it has a block, and it consists of whole entries.
pub record IsDir (ip : Inode) (d : Disk) (sb : Superblock) : Type 0 where
  pub there : IsThere sb kernel_reach ip d 0 ip.size
  pub small : ip.size ≤ maxfile * bsize
  pub whole : ip.size % de_size ≡ 0

-- `t` is the table; the directory is in slot `i`.
module _ (sb : Superblock) (t : ℕ → Inode) (d : Disk) (s : IsSound sb (live t) d) (i de : ℕ)
    (m : Memory) (dir : IsDir (live t i) d sb) (fits : de + de_size < 2 ^ 64) where
  -- Entry `k` of the directory, read into `de`.
  abbrev pub entry : ℕ → Memory
  entry k = with_entry sb (live t) d s i de m dir.there dir.small dir.whole fits k

  abbrev pub entry_count : ℕ
  entry_count = (live t i).size / de_size

  -- `isdirempty` of a directory in use, if the inodes in use are sound and the directory consists of
  -- at least two whole entries and has a block for each byte, ends and does not panic. It answers
  -- true exactly if no entry behind the first two is in use.
  pub isdirempty-is_used :
      ((t i).valid && ltb 0 (t i).ref) ≡ true
      → 2 ≤ entry_count
      → (b : Bool) × (m' : Memory) × (ip : Inode) × (d' : Disk) × (isdirempty sb de m (t i) d
          ≡ done (b, m', ip, d'))
        × ((b ≡ true) ↔ ((h : ℕ) → 2 ≤ h → h < entry_count → is_used de (entry h) ≡ false))
  unfolding isdirempty
  isdirempty-is_used in_use two =
      let same : live t i ≡ t i = rw in_use refl in
      let called : isdirempty sb de m (t i) d ≡ isdirempty sb de m (live t i) d =
        ap (λ x. isdirempty sb de m x d) (sym same) in
      let r =
        entries-Searched sb (live t) d s i de m dir.there dir.small dir.whole fits (is_used de)
          (entry_fuel (live t i)) 2 m (live t i) d two (omega arith)
          (Looks-start sb (live t) d s i de m) in
      elim r.outcome [
        | inl (j, run, lo, hi, passes, before) ↦ (
          false,
          r.m',
          r.ip,
          r.d',
          called ∙ ap (λ x. x >>= none_used) run,
          ((λ e. absurd (ground arith)), (λ h. absurd (ground (arith, h j lo hi, passes)))),
        )
        | inr (run, before) ↦ (
          true,
          r.m',
          r.ip,
          r.d',
          called ∙ ap (λ x. x >>= none_used) run,
          ((λ e. before), (λ h. refl)),
        )
      ]

  -- The table when the search is over.
  abbrev pub searched : Inode → Disk → World
  searched ip d' = record { inode = update t i ip; disk = d' }

  -- Entry `k` is in use and has the name at an address.
  abbrev pub IsNamed : (name k : ℕ) → Type 0
  IsNamed name k = (half_at (entry k) de ≢ 0) × Agree name (de + 2) dirsiz (entry k)

  has_name-IsNamed : (name k : ℕ) → (has_name name de (entry k) ≡ true) ↔ IsNamed name k
  unfolding namecmp
  has_name-IsNamed name k =
      let same = strncmp-Agree name (de + 2) dirsiz (entry k) in
      (
        λ e. (
          λ z. absurd (ground (arith, e, z)),
          same.0 (to_zero (strncmp name (de + 2) dirsiz (entry k)) (ground (arith, e))),
        ),
        λ n. ground (arith, n.0, same.1 n.1),
      )
    where
      to_zero : (z : ℤ) → is_zero z ≡ true → z ≡ pos 0
      to_zero (pos n) e = ap pos (ground (arith, e))
      to_zero (negsuc n) e = absurd (ground (arith, e))

  has_name-misses : (name k : ℕ) → has_name name de (entry k) ≡ false → ¬ IsNamed name k
  has_name-misses name k e n = absurd (ground (arith, e, (has_name-IsNamed name k).1 n))

  -- The call came to `r`.
  pub record Answered (name : ℕ) (r : Run (Option (ℕ × ℕ) × Memory × World)) : Type 0 where
    pub m' : Memory
    pub ip : Inode
    pub d' : Disk
    pub looks : Looks sb (live t) d s i de m m' ip d'
    pub outcome :
        ((j : ℕ) × (j < entry_count)
          × IsNamed name j
          × ((h : ℕ) → h < j → ¬ IsNamed name h)
          × (((slot : ℕ) × (w' : World) × (r ≡ done (some (slot, de_size * j), m', w'))
                × Got (t i).dev (half_at (entry j) de) (searched ip d') slot w')
              ⊎ ((r ≡ panics) × ((k : ℕ) → k < ninode → ((searched ip d').inode k).ref ≢ 0))))
        ⊎ ((r ≡ done (none, m', searched ip d')) × ((h : ℕ) → h < entry_count → ¬ IsNamed name h))

  searched-IsTable :
      (ip : Inode) → ip ≡ record (t i) { addrs = ip.addrs } → IsTable t → IsTable (update t i ip)
  searched-IsTable ip e u j k lt lt' r r' dv n =
      let same : (h : ℕ)
          → ((update t i ip h).ref ≡ (t h).ref)
            × ((update t i ip h).dev ≡ (t h).dev)
            × ((update t i ip h).inum ≡ (t h).inum) =
        λ h. elim (Bool-cases (i == h)) [
          | inl q ↦
              let at : i ≡ h = (==_iff i h).0 q in
              (
                rw q (ap (λ (x : Inode). x.ref) e ∙ ap (λ h. (t h).ref) at),
                rw q (ap (λ (x : Inode). x.dev) e ∙ ap (λ h. (t h).dev) at),
                rw q (ap (λ (x : Inode). x.inum) e ∙ ap (λ h. (t h).inum) at),
              )
          | inr q ↦ (rw q refl, rw q refl, rw q refl)
        ] in
      u j k lt lt' (λ z. r ((same j).0 ∙ z)) (λ z. r' ((same k).0 ∙ z))
        (sym (same j).1 ∙ dv ∙ (same k).1) (sym (same j).2 ∙ n ∙ (same k).2)

  -- `dirlookup` of a directory in use, if the inodes in use are sound, no two slots in use have the
  -- same inode, and the directory consists of whole entries and has a block for each byte, ends, and
  -- panics only if every slot of the inode table is in use. If an entry has an inode number other
  -- than 0 and a name that agrees with the given one in each byte up to and including a 0, of at
  -- most 14, it answers the offset of the first such entry and a slot with the inode that this entry
  -- names, which has one reference more; otherwise it answers that there is none. No byte of a file
  -- changes.
  pub dirlookup-Answered :
      (name : ℕ)
      → ((t i).valid && ltb 0 (t i).ref) ≡ true
      → (t i).type ≡ t_dir
      → IsTable t
      → Answered name (dirlookup sb de i name m (record { inode = t; disk = d }))
  unfolding dirlookup
  dirlookup-Answered name in_use ty u =
      let same : live t i ≡ t i = rw in_use refl in
      let w : World = record { inode = t; disk = d } in
      let r =
        entries-Searched sb (live t) d s i de m dir.there dir.small dir.whole fits
          (has_name name de) (entry_fuel (live t i)) 0 m (live t i) d (omega arith) (omega arith)
          (Looks-start sb (live t) d s i de m) in
      let is_dir : ((t i).type == t_dir) ≡ true = ground (arith, ty) in
      let looked = λ (x : Inode). entries sb (has_name name de) de (entry_fuel x) 0 m x d in
      let opened : dirlookup sb de i name m w ≡ (looked (live t i) >>= get_found i w) =
        let here : dirlookup sb de i name m w ≡ (looked (t i) >>= get_found i w) =
          rw (is_dir, dirlookup) refl in
        here ∙ ap (λ x. looked x >>= get_found i w) (sym same) in
      let fields : r.ip ≡ record (t i) { addrs = r.ip.addrs } =
        r.looks.fields ∙ ap (λ (x : Inode). record x { addrs = r.ip.addrs }) same in
      let dev : r.ip.dev ≡ (t i).dev = ap (λ (x : Inode). x.dev) fields in
      record {
        m' = r.m';
        ip = r.ip;
        d' = r.d';
        looks = r.looks;
        outcome = elim r.outcome [
          | inr (run, before) ↦ inr (
            opened ∙ ap (λ x. x >>= get_found i w) run,
            λ h lt. has_name-misses name h (before h (omega arith) lt),
          )
          | inl (j, run, lo, hi, passes, before) ↦
              let inum = half_at (entry j) de in
              let w1 = searched r.ip r.d' in
              let next = λ (g : Run (ℕ × World)).
                g >>= (λ r'. done (some (r'.0, de_size * j), r.m', r'.1)) in
              let called : dirlookup sb de i name m w ≡ next (iget (t i).dev inum w1) =
                opened ∙ ap (λ x. x >>= get_found i w) run ∙ ap (λ v. next (iget v inum w1)) dev in
              inl (
                j,
                hi,
                (has_name-IsNamed name j).0 passes,
                λ h lt. has_name-misses name h (before h (omega arith) lt),
                elim (iget-Got (t i).dev inum w1 (searched-IsTable r.ip fields u)) [
                  | inl (slot, w', got_run, got) ↦ inl (slot, w', called ∙ ap next got_run, got)
                  | inr (full_run, none_now, full) ↦ inr (called ∙ ap next full_run, full)
                ],
              )
        ];
      }
