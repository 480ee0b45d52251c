-- ===== src/Kernel/Dir/Lookup.antt =====
-- A loop over the entries of a directory against a search of them.
use mathlib.Core.Path.{subst}
use xv6_tp.Base.{
  ℕ, zero, suc, ◌+◌, ◌-◌, ◌*◌, ◌/◌, ◌%◌, ◌^◌, ◌≤◌, ◌<◌, ◌≡◌, ◌⊎◌, Bool, true, false, ◌&&◌, ltb, leb,
  none, some, if◌then◌else◌, arith, refl, Bool-cases, inl, inr, sym, ◌∙◌, ap, fun_ext, update,
  update_self, pos,
}
use xv6_tp.Base.Run.{Run, done}
use xv6_tp.Kernel.File.Transfer.{bsize}
use xv6_tp.Kernel.Str.{Memory}
use xv6_tp.Kernel.Block.{Superblock, Disk}
use xv6_tp.Kernel.Inode.{Inode, maxfile, half_at, paste}
use xv6_tp.Kernel.Inode.Copies.{readi, clip}
use xv6_tp.Kernel.Inode.Slots.{file_byte, IsSound}
use xv6_tp.Kernel.Inode.Map.{Carries, Carries-trans, update_id, update_twice}
use xv6_tp.Kernel.Inode.Readi.{IsThere, readi-ReadLooped}
use xv6_tp.Kernel.Dir.{de_size, kernel_reach, read_dirent, Found, entries}

-- The memory with the entry at offset `off` of a file in `de`.
abbrev pub loaded : (ℕ → ℕ) → (de off : ℕ) → Memory → Memory
loaded file de off m = paste file off de de_size m

module _ (sb : Superblock) (inode : ℕ → Inode) (d : Disk) (s : IsSound sb inode d) (i de : ℕ)
    (m : Memory) where
  -- The file of the directory.
  abbrev pub file : ℕ → ℕ
  file o = file_byte (inode i) d o

  -- The state of the loop: nothing changed but the entry in memory.
  pub record Looks (m' : Memory) (ip : Inode) (d' : Disk) : Type 0 where
    pub carries : Carries sb inode d (update inode i ip) d'
    pub fields : ip ≡ record (inode i) { addrs = ip.addrs }
    pub over : (g : ℕ → ℕ) (off x : ℕ) → loaded g de off m' x ≡ loaded g de off m x

  pub Looks-start : Looks m (inode i) d
  Looks-start = record {
    carries =
        subst (λ f. Carries sb inode d f d) (sym (update_id inode i))
          (record { sound = s; same = λ j o. refl; keeps = λ j k nz. refl });
    fields = refl;
    over = λ g off x. refl;
  }

  module _ (there : IsThere sb kernel_reach (inode i) d 0 (inode i).size)
      (small : (inode i).size ≤ maxfile * bsize) (whole_entries : (inode i).size % de_size ≡ 0)
      (fits : de + de_size < 2 ^ 64) where
    read_dirent-Looks :
        (off : ℕ) (m1 : Memory) (ip : Inode) (d1 : Disk)
        → off + de_size ≤ (inode i).size
        → Looks m1 ip d1
        → (m2 : Memory) × (ip2 : Inode) × (d2 : Disk) × (read_dirent sb de off m1 ip d1
            ≡ done (m2, ip2, d2))
          × Looks m2 ip2 d2
          × (m2 ≡ loaded file de off m)
    unfolding read_dirent
    read_dirent-Looks off m1 ip d1 inside l =
        let f = update inode i ip in
        let at : f i ≡ ip = update_self inode i ip in
        let size : (f i).size ≡ (inode i).size = ap (λ (x : Inode). x.size) (at ∙ l.fields) in
        let r =
          readi-ReadLooped sb kernel_reach f d1 l.carries.sound i de off de_size m1 (omega arith)
            (omega arith) (omega arith) fits (λ a k lo hi. refl)
            (λ o lo hi z.
              let nz = there o lo (omega arith) in
              nz (sym (l.carries.keeps i (o / bsize) nz) ∙ z)) in
        let all : clip (f i).size off de_size ≡ de_size = ground (arith, size) in
        let run : readi kernel_reach sb de off de_size m1 ip d1
            ≡ done (pos de_size, r.mem', r.ip, r.d') =
          ap (λ x. readi kernel_reach sb de off de_size m1 x d1) (sym at)
          ∙ r.answer
          ∙ ap (λ z. done (pos z, r.mem', r.ip, r.d')) all in
        let content : (x : ℕ) → r.mem' x ≡ loaded file de off m x = λ x.
          r.got.content x
          ∙ ap (λ z. paste (file_byte (f i) d1) off de z m1 x) (omega (arith, all))
          ∙ l.over (file_byte (f i) d1) off x
          ∙ ap (λ (g : ℕ → ℕ). loaded g de off m x) (fun_ext (l.carries.same i)) in
        (
          r.mem',
          r.ip,
          r.d',
          rw run refl,
          record {
            carries =
                Carries-trans sb inode f (update inode i r.ip) d d1 r.d' l.carries (
                  subst (λ g. Carries sb f d1 g r.d') (update_twice inode i ip r.ip) r.got.carries);
            fields =
                r.got.fields ∙ ap (λ (x : Inode). record x { addrs = r.ip.addrs }) (at ∙ l.fields);
            over = λ g o x. over_again g o off x (r.mem' x) (content x);
          },
          fun_ext content,
        )
      where
        over_again :
            (g : ℕ → ℕ) (o off x y : ℕ)
            → y ≡ loaded file de off m x
            → (if leb de x && ltb x (de + de_size) then g (o + (x - de)) else y) ≡ loaded g de o m x
        over_again g o off x y e = ground (arith, e)

    abbrev pub count : ℕ
    count = (inode i).size / de_size

    -- The memory with entry `k` in `de`.
    abbrev pub with_entry : ℕ → Memory
    with_entry k = loaded file de (de_size * k) m

    module _ (test : Memory → Bool) where
      -- The loop, from entry `k` on, stopped at the first entry that passes the test, or went to the end.
      pub record Searched (k : ℕ) (r : Run (Found × Memory × Inode × Disk)) : Type 0 where
        pub m' : Memory
        pub ip : Inode
        pub d' : Disk
        pub looks : Looks m' ip d'
        pub outcome :
            ((j : ℕ) × (r ≡ done (some (half_at (with_entry j) de, de_size * j), m', ip, d'))
              × (k ≤ j)
              × (j < count)
              × (test (with_entry j) ≡ true)
              × ((h : ℕ) → k ≤ h → h < j → test (with_entry h) ≡ false))
            ⊎ ((r ≡ done (none, m', ip, d'))
                × ((h : ℕ) → k ≤ h → h < count → test (with_entry h) ≡ false))

      pub entries-Searched :
          (fuel k : ℕ) (m1 : Memory) (ip : Inode) (d1 : Disk)
          → k ≤ count
          → count < k + fuel
          → Looks m1 ip d1
          → Searched k (entries sb test de fuel (de_size * k) m1 ip d1)
      unfolding entries
      entries-Searched zero k m1 ip d1 le enough l = absurd (omega arith)
      entries-Searched (suc fuel) k m1 ip d1 le enough l =
          let size : ip.size ≡ (inode i).size = ap (λ (x : Inode). x.size) l.fields in
          elim (Bool-cases (ltb (de_size * k) ip.size)) [
            | inr over ↦ record {
              m' = m1;
              ip = ip;
              d' = d1;
              looks = l;
              outcome = inr (rw over refl, λ h lo hi. absurd (ground (arith, over, size)));
            }
            | inl more ↦
                let inside : de_size * k + de_size ≤ (inode i).size = ground (arith, more, size) in
                let (m2, ip2, d2, run, l2, e) = read_dirent-Looks (de_size * k) m1 ip d1 inside l in
                elim (Bool-cases (test m2)) [
                  | inl hit ↦ record {
                    m' = m2;
                    ip = ip2;
                    d' = d2;
                    looks = l2;
                    outcome = inl (
                      k,
                      rw (more, run, hit)
                          (ap (λ z. done (some (half_at z de, de_size * k), m2, ip2, d2)) e),
                      omega arith,
                      ground arith,
                      ap test (sym e) ∙ hit,
                      λ h lo hi. absurd (omega arith),
                    );
                  }
                  | inr miss ↦
                      let next : de_size * k + de_size ≡ de_size * (k + 1) = omega arith in
                      let rest =
                        entries-Searched fuel (k + 1) m2 ip2 d2 (ground arith) (omega arith) l2 in
                      let goes : entries sb test de (suc fuel) (de_size * k) m1 ip d1
                          ≡ entries sb test de fuel (de_size * (k + 1)) m2 ip2 d2 =
                        rw (more, run, miss, entries)
                          (ap (λ o. entries sb test de fuel o m2 ip2 d2) next) in
                      let here : test (with_entry k) ≡ false = ap test (sym e) ∙ miss in
                      record {
                        m' = rest.m';
                        ip = rest.ip;
                        d' = rest.d';
                        looks = rest.looks;
                        outcome = elim rest.outcome [
                          | inl (j, answer, lo, hi, passes, before) ↦ inl (
                            j,
                            goes ∙ answer,
                            omega arith,
                            hi,
                            passes,
                            λ h lo' hi'. from_here k h here (λ lt. before h lt hi') lo',
                          )
                          | inr (answer, before) ↦ inr (
                            goes ∙ answer,
                            λ h lo' hi'. from_here k h here (λ lt. before h lt hi') lo',
                          )
                        ];
                      }
                ]
          ]
        where
          from_here :
              (k h : ℕ)
              → test (with_entry k) ≡ false
              → (k + 1 ≤ h → test (with_entry h) ≡ false)
              → k ≤ h
              → test (with_entry h) ≡ false
          from_here k h at_k later le = elim (Bool-cases (ltb k h)) [
            | inl lt ↦ later (ground arith)
            | inr eq ↦ let e : h ≡ k = ground arith in ap (λ k. test (with_entry k)) e ∙ at_k
          ]
