-- ===== src/Kernel/Inode/Readi.antt =====
-- The loop of `readi`, all of it, and `readi` after `writei`.
use mathlib.Core.Path.{subst}
use xv6_tp.Base.{
  ℕ, zero, suc, ◌+◌, ◌-◌, ◌*◌, ◌/◌, ◌%◌, ◌^◌, ◌≤◌, ◌<◌, ◌≡◌, ◌≢◌, true, false, ◌||◌, ltb, arith,
  refl, Bool-cases, inl, inr, sym, ◌∙◌, ap, update, update_self, ℤ, pos,
}
use xv6_tp.Base.Run.{Run, done}
use xv6_tp.Kernel.File.Transfer.{bsize}
use xv6_tp.Kernel.Block.{Superblock, Disk}
use xv6_tp.Kernel.Inode.{Inode, maxfile, paste, part}
use xv6_tp.Kernel.Inode.Copies.{copies, no_block, read_round, read_loop, readi, clip}
use xv6_tp.Kernel.Inode.Slots.{slot, file_byte, IsSound}
use xv6_tp.Kernel.Inode.Map.{Carries, Carries-trans, update_id, update_twice}
use xv6_tp.Kernel.Inode.Read.{HasRead, paste-paste, paste_none, read_round-ReadRoundAs}

part_bounds :
    (n tot off : ℕ)
    → tot < n
    → (0 < part n tot off) × (tot + part n tot off ≤ n) × (off % bsize + part n tot off ≤ bsize)
part_bounds n tot off lt = (omega arith, omega arith, omega arith)

module _ (sb : Superblock) (reach : (addr n : ℕ) → ℕ) where
  HasRead-then :
      (inode : ℕ → Inode) (d : Disk) (s : IsSound sb inode d) (i dst off k m : ℕ)
      (mem mem1 mem2 : ℕ → ℕ) (ip : Inode) (d1 : Disk) (s1 : IsSound sb (update inode i ip) d1)
      (ip' : Inode) (d2 : Disk)
      → HasRead sb reach inode d s i dst off k mem mem1 ip d1
      → HasRead sb reach (update inode i ip) d1 s1 i (dst + k) (off + k) m mem1 mem2 ip' d2
      → HasRead sb reach inode d s i dst off (k + m) mem mem2 ip' d2
  HasRead-then inode d s i dst off k m mem mem1 mem2 ip d1 s1 ip' d2 r r' =
      let f = update inode i ip in
      record {
        carries =
            Carries-trans sb inode f (update inode i ip') d d1 d2 r.carries
              (subst (λ g. Carries sb f d1 g d2) (update_twice inode i ip ip') r'.carries);
        fields =
            r'.fields
            ∙ ap (λ (x : Inode). record x { addrs = ip'.addrs })
                (update_self inode i ip ∙ r.fields);
        content = λ x.
            r'.content x
            ∙ paste-paste (file_byte (inode i) d) (file_byte (f i) d1) mem mem1 off dst k m x
                (r.carries.same i) (r.content x);
      }

  -- What the loop comes to from byte `tot` of `n` on.
  pub record ReadLooped (inode : ℕ → Inode) (d : Disk) (s : IsSound sb inode d)
      (i dst off tot n : ℕ) (mem : ℕ → ℕ) (r : Run (ℤ × (ℕ → ℕ) × Inode × Disk)) : Type 0 where
    pub mem' : ℕ → ℕ
    pub ip : Inode
    pub d' : Disk
    pub answer : r ≡ done (pos n, mem', ip, d')
    pub got : HasRead sb reach inode d s i dst off (n - tot) mem mem' ip d'

  at_total :
      {t t' : ℕ} (mem : ℕ → ℕ) (ip : Inode) (d : Disk)
      → t ≡ t'
      → ◌≡◌ {A = Run (ℤ × (ℕ → ℕ) × Inode × Disk)}
          (done (pos t, mem, ip, d))
          (done (pos t', mem, ip, d))
  at_total mem ip d e = ap (λ t. done (pos t, mem, ip, d)) e

  goes_on :
      (n fuel dst off tot : ℕ) (mem : ℕ → ℕ) (ip : Inode) (d : Disk) (k : ℕ) (mem' : ℕ → ℕ)
      (ip' : Inode) (d' : Disk)
      → tot < n
      → read_round reach sb dst off (part n tot off) mem ip d ≡ done (copies k, mem', ip', d')
      → (dst + k) % 2 ^ 64 ≡ dst + k
      → (off + k) % 2 ^ 32 ≡ off + k
      → read_loop reach sb n (suc fuel) dst off tot mem ip d
        ≡ read_loop reach sb n fuel (dst + k) (off + k) (tot + k) mem' ip' d'
  unfolding read_loop
  goes_on n fuel dst off tot mem ip d k mem' ip' d' lt run e_dst e_off =
      let more : ltb tot n ≡ true = ground arith in rw (more, run, e_dst, e_off) refl

  is_over :
      (n fuel dst off tot : ℕ) (mem : ℕ → ℕ) (ip : Inode) (d : Disk)
      → ltb tot n ≡ false
      → read_loop reach sb n fuel dst off tot mem ip d ≡ done (pos tot, mem, ip, d)
  unfolding read_loop
  is_over n zero dst off tot mem ip d e = rw e refl
  is_over n (suc fuel) dst off tot mem ip d e = rw e refl

  no_more :
      (n fuel dst off tot : ℕ) (mem : ℕ → ℕ) (ip : Inode) (d : Disk) (mem' : ℕ → ℕ) (ip' : Inode)
      (d' : Disk)
      → tot < n
      → read_round reach sb dst off (part n tot off) mem ip d ≡ done (no_block, mem', ip', d')
      → read_loop reach sb n (suc fuel) dst off tot mem ip d ≡ done (pos tot, mem', ip', d')
  unfolding read_loop
  no_more n fuel dst off tot mem ip d mem' ip' d' lt run =
      let more : ltb tot n ≡ true = ground arith in rw (more, run) refl

  -- Every byte of the file in the range has a block.
  abbrev pub IsThere : Inode → Disk → (off n : ℕ) → Type 0
  IsThere ip d off n = (o : ℕ) → off ≤ o → o < off + n → slot ip d (o / bsize) ≢ 0

  -- Nothing more to read.
  ReadLooped-over :
      (n fuel : ℕ) (inode : ℕ → Inode) (d : Disk) (s : IsSound sb inode d) (i dst off tot : ℕ)
      (mem : ℕ → ℕ)
      → tot ≡ n
      → ReadLooped inode d s i dst off tot n mem
          (read_loop reach sb n fuel dst off tot mem (inode i) d)
  ReadLooped-over n fuel inode d s i dst off tot mem e =
      let rest : n - tot ≡ 0 = omega arith in
      record {
        mem' = mem;
        ip = inode i;
        d' = d;
        answer =
            is_over n fuel dst off tot mem (inode i) d (ground arith) ∙ at_total mem (inode i) d e;
        got = record {
          carries =
              subst (λ f. Carries sb inode d f d) (sym (update_id inode i))
                (record { sound = s; same = λ j o. refl; keeps = λ j k nz. refl });
          fields = refl;
          content = λ x.
              paste_none sb reach inode d s i (file_byte (inode i) d) mem off dst x
              ∙ ap (λ z. paste (file_byte (inode i) d) off dst z mem x) (sym rest);
        };
      }

  read_loop-ReadLooped :
      (n fuel : ℕ) (inode : ℕ → Inode) (d : Disk) (s : IsSound sb inode d) (i dst off tot : ℕ)
      (mem : ℕ → ℕ)
      → tot ≤ n
      → n ≤ tot + fuel
      → dst + (n - tot) < 2 ^ 64
      → off + (n - tot) ≤ maxfile * bsize
      → ((a k : ℕ) → dst ≤ a → a + k ≤ dst + (n - tot) → reach a k ≡ k)
      → IsThere (inode i) d off (n - tot)
      → ReadLooped inode d s i dst off tot n mem
          (read_loop reach sb n fuel dst off tot mem (inode i) d)
  read_loop-ReadLooped n zero inode d s i dst off tot mem le enough fits_d fits_o all there =
      ReadLooped-over n zero inode d s i dst off tot mem (omega arith)
  read_loop-ReadLooped n (suc fuel) inode d s i dst off tot mem le enough fits_d fits_o all there =
      elim (Bool-cases (ltb tot n)) [
        | inr over ↦ ReadLooped-over n (suc fuel) inode d s i dst off tot mem (ground arith)
        | inl more ↦
            let lt : tot < n = ground arith in
            let k : ℕ = part n tot off in
            let (k_pos, k_le, k_fits) = part_bounds n tot off lt in
            let inside : off / bsize < maxfile = omega arith in
            let (mem', ip, d', r) =
              read_round-ReadRoundAs sb reach inode d s i dst off k mem inside k_fits
                (all dst k (omega arith) (omega arith)) in
            elim r [
              | inr (run, got, hole) ↦ absurd (there off (omega arith) (omega arith) hole)
              | inl (run, got) ↦
                  let f = update inode i ip in
                  let l =
                    read_loop-ReadLooped n fuel f d' got.carries.sound i (dst + k) (off + k)
                      (tot + k) mem' k_le (omega arith) (omega arith) (omega arith)
                      (λ a q lo hi. all a q (omega arith) (omega arith))
                      (λ o lo hi z.
                        let nz = there o (omega arith) (omega arith) in
                        nz (sym (got.carries.keeps i (o / bsize) nz) ∙ z)) in
                  let rest : k + (n - (tot + k)) ≡ n - tot = omega arith in
                  record {
                    mem' = l.mem';
                    ip = l.ip;
                    d' = l.d';
                    answer =
                        goes_on n fuel dst off tot mem (inode i) d k mem' ip d' lt run (omega arith)
                          (omega arith)
                        ∙ ap
                            (λ x. read_loop reach sb n fuel (dst + k) (off + k) (tot + k) mem' x d')
                            (sym (update_self inode i ip))
                        ∙ l.answer;
                    got =
                        subst (λ z. HasRead sb reach inode d s i dst off z mem l.mem' l.ip l.d')
                          rest
                          (HasRead-then inode d s i dst off k (n - (tot + k)) mem mem' l.mem' ip d'
                            got.carries.sound l.ip l.d' got l.got);
                  }
            ]
      ]

  -- `readi` at an offset in a file whose bytes all have blocks, to memory that `either_copyout`
  -- reaches, ends and does not panic. It answers the number of bytes asked for, or that of the bytes up to the
  -- end of the file if they are fewer. These bytes of the file, in order, are then in
  -- the memory, whose other bytes stay. No byte of a file changes, the inodes stay sound, and of the inode
  -- only the addresses can change.
  pub readi-ReadLooped :
      (inode : ℕ → Inode) (d : Disk) (s : IsSound sb inode d) (i dst off n : ℕ) (mem : ℕ → ℕ)
      → off ≤ (inode i).size
      → (inode i).size ≤ maxfile * bsize
      → off + n < 2 ^ 32
      → dst + n < 2 ^ 64
      → ((a k : ℕ) → dst ≤ a → a + k ≤ dst + n → reach a k ≡ k)
      → IsThere (inode i) d 0 (inode i).size
      → ReadLooped inode d s i dst off 0
          (clip (inode i).size off n)
          mem
          (readi reach sb dst off n mem (inode i) d)
  unfolding readi
  readi-ReadLooped inode d s i dst off n mem within small fits_o fits_d all there =
      let c : ℕ = clip (inode i).size off n in
      let c_n : c ≤ n = ground arith in
      let c_size : off + c ≤ (inode i).size = ground arith in
      let ok : (ltb (inode i).size off || ltb ((off + n) % 2 ^ 32) off) ≡ false = ground arith in
      rw ok (
        read_loop-ReadLooped c c inode d s i dst off 0 mem (omega arith) (omega arith) (omega arith)
          (omega arith) (λ a k lo hi. all a k lo (omega arith))
          (λ o lo hi. there o (omega arith) (omega arith)))
