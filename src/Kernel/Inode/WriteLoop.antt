-- ===== src/Kernel/Inode/WriteLoop.antt =====
-- The loop of `writei`, and all of it.
use mathlib.Core.Path.{subst}
use xv6_tp.Base.{
  ℕ, zero, suc, ◌+◌, ◌-◌, ◌*◌, ◌/◌, ◌%◌, ◌^◌, ◌≤◌, ◌<◌, ◌≡◌, ◌⊎◌, true, false, ◌&&◌, ◌==◌, ltb, leb,
  if◌then◌else◌, arith, refl, Bool-cases, inl, inr, sym, ◌∙◌, ap, update, update_self,
}
use xv6_tp.Base.Run.{Run, done}
use xv6_tp.Kernel.File.Transfer.{bsize}
use xv6_tp.Kernel.File.Written.{patched, patched-patched}
use xv6_tp.Kernel.Block.{Superblock, Disk}
use xv6_tp.Kernel.Block.Bits.{Bytes}
use xv6_tp.Kernel.Inode.{Inode, maxfile, part}
use xv6_tp.Kernel.Inode.Copies.{copies, no_block, write_round, write_loop}
use xv6_tp.Kernel.Inode.Slots.{slot, file_byte, IsSound}
use xv6_tp.Kernel.Inode.Map.{IsFull, update_id, update_twice}
use xv6_tp.Kernel.Inode.Write.{Wrote, write_round-RoundAs}

module _ (sb : Superblock) (reach : (addr n : ℕ) → ℕ) (mem : ℕ → ℕ) (mem_bytes : Bytes mem) where
  Wrote-then :
      (inode : ℕ → Inode) (d : Disk) (s : IsSound sb inode d) (i src off k m src' off' : ℕ)
      (ip : Inode) (d1 : Disk) (s1 : IsSound sb (update inode i ip) d1) (ip' : Inode) (d2 : Disk)
      → src + k ≡ src'
      → off + k ≡ off'
      → Wrote sb reach mem mem_bytes inode d s i src off k ip d1
      → Wrote sb reach mem mem_bytes (update inode i ip) d1 s1 i src' off' m ip' d2
      → Wrote sb reach mem mem_bytes inode d s i src off (k + m) ip' d2
  Wrote-then inode d s i src off k m src' off' ip d1 s1 ip' d2 e_src e_off w w' =
      let f = update inode i ip in
      let two = update_twice inode i ip ip' in
      let old = λ (j o : ℕ). file_byte (inode j) d o in
      let mid = λ (j o : ℕ). file_byte (f j) d1 o in
      record {
        sound = subst (λ f. IsSound sb f d2) two w'.sound;
        fields =
            w'.fields
            ∙ ap (λ (x : Inode). record x { addrs = ip'.addrs })
                (update_self inode i ip ∙ w.fields);
        keeps = λ j k nz.
            ap (λ (f : ℕ → Inode). slot (f j) d2 k) (sym two)
            ∙ w'.keeps j k (λ z. nz (sym (w.keeps j k nz) ∙ z))
            ∙ w.keeps j k nz;
        there = λ o lo hi z.
            let e = ap (λ (f : ℕ → Inode). slot (f i) d2 (o / bsize)) two in
            elim (Bool-cases (ltb o (off + k))) [
              | inl near ↦
                  let nz = w.there o lo (ground arith) in
                  nz (sym (w'.keeps i (o / bsize) nz) ∙ e ∙ z)
              | inr far ↦ w'.there o (ground (arith, e_off)) (omega arith) (e ∙ z)
            ];
        content = λ j o.
            ap (λ (f : ℕ → Inode). file_byte (f j) d2 o) (sym two)
            ∙ w'.content j o
            ∙ ap (λ z. patched mem i z off' m mid j o) (sym e_src)
            ∙ ap (λ z. patched mem i (src + k) z m mid j o) (sym e_off)
            ∙ patched-patched mem i src off k m old mid j o (w.content j o);
      }

  -- What the loop comes to from byte `tot` of `n` on.
  pub record Looped (inode : ℕ → Inode) (d : Disk) (s : IsSound sb inode d) (i src off tot n : ℕ)
      (r : Run (ℕ × ℕ × Inode × Disk)) : Type 0 where
    pub m : ℕ
    pub ip : Inode
    pub d' : Disk
    pub answer : r ≡ done (tot + m, off + m, ip, d')
    pub most : tot + m ≤ n
    pub wrote : Wrote sb reach mem mem_bytes inode d s i src off m ip d'
    pub ended : (tot + m ≡ n) ⊎ IsFull sb d'

  pub at_end :
      {t t' o o' : ℕ} (ip : Inode) (d : Disk)
      → t ≡ t'
      → o ≡ o'
      → ◌≡◌ {A = Run (ℕ × ℕ × Inode × Disk)} (done (t, o, ip, d)) (done (t', o', ip, d))
  at_end {t = t} {o' = o'} ip d e f =
      ap (λ o. done (t, o, ip, d)) f ∙ ap (λ t. done (t, o', ip, d)) e

  goes_on :
      (n fuel src off tot src' off' : ℕ) (ip : Inode) (d : Disk) (k : ℕ) (ip' : Inode) (d' : Disk)
      → tot < n
      → write_round reach sb mem src off (part n tot off) ip d ≡ done (copies k, ip', d')
      → (src + k) % 2 ^ 64 ≡ src'
      → (off + k) % 2 ^ 32 ≡ off'
      → write_loop reach sb mem n (suc fuel) src off tot ip d
        ≡ write_loop reach sb mem n fuel src' off' (tot + k) ip' d'
  unfolding write_loop
  goes_on n fuel src off tot src' off' ip d k ip' d' lt run e_src e_off =
      let more : ltb tot n ≡ true = ground arith in rw (more, run, e_src, e_off) refl

  is_over :
      (n fuel src off tot : ℕ) (ip : Inode) (d : Disk)
      → ltb tot n ≡ false
      → write_loop reach sb mem n fuel src off tot ip d ≡ done (tot, off, ip, d)
  unfolding write_loop
  is_over n zero src off tot ip d e = rw e refl
  is_over n (suc fuel) src off tot ip d e = rw e refl

  no_more :
      (n fuel src off tot : ℕ) (ip : Inode) (d : Disk) (ip' : Inode) (d' : Disk)
      → tot < n
      → write_round reach sb mem src off (part n tot off) ip d ≡ done (no_block, ip', d')
      → write_loop reach sb mem n (suc fuel) src off tot ip d ≡ done (tot, off, ip', d')
  unfolding write_loop
  no_more n fuel src off tot ip d ip' d' lt run =
      let more : ltb tot n ≡ true = ground arith in rw (more, run) refl

  pub part_bounds :
      (n tot off : ℕ)
      → tot < n
      → (0 < part n tot off) × (tot + part n tot off ≤ n) × (off % bsize + part n tot off ≤ bsize)
  part_bounds n tot off lt = (omega arith, omega arith, omega arith)

  nothing_more :
      (inode : ℕ → Inode) (d : Disk) (s : IsSound sb inode d) (i src off : ℕ)
      → Wrote sb reach mem mem_bytes inode d s i src off 0 (inode i) d
  nothing_more inode d s i src off = record {
    sound = subst (λ f. IsSound sb f d) (sym (update_id inode i)) s;
    fields = refl;
    keeps = λ j k nz. ap (λ (f : ℕ → Inode). slot (f j) d k) (update_id inode i);
    there = λ o lo hi. absurd (omega arith);
    content = λ j o.
        ap (λ (f : ℕ → Inode). file_byte (f j) d o) (update_id inode i)
        ∙ sym (none j o (file_byte (inode j) d o));
  }
    where
      none :
          (j o was : ℕ)
          → (if (j == i) && leb off o && ltb o (off + 0) then mem (src + (o - off)) else was) ≡ was
      none j o was = ground arith

  Looped-over :
      (n fuel : ℕ) (inode : ℕ → Inode) (d : Disk) (s : IsSound sb inode d) (i src off tot : ℕ)
      → tot ≡ n
      → Looped inode d s i src off tot n (write_loop reach sb mem n fuel src off tot (inode i) d)
  Looped-over n fuel inode d s i src off tot e = record {
    m = 0;
    ip = inode i;
    d' = d;
    answer =
        is_over n fuel src off tot (inode i) d (ground arith)
        ∙ at_end (inode i) d (omega arith) (omega arith);
    most = omega arith;
    wrote = nothing_more inode d s i src off;
    ended = inl (omega arith);
  }

  pub write_loop-Looped :
      (n fuel : ℕ) (inode : ℕ → Inode) (d : Disk) (s : IsSound sb inode d) (i src off tot : ℕ)
      → tot ≤ n
      → n ≤ tot + fuel
      → src + (n - tot) < 2 ^ 64
      → off + (n - tot) ≤ maxfile * bsize
      → ((a k : ℕ) → src ≤ a → a + k ≤ src + (n - tot) → reach a k ≡ k)
      → Looped inode d s i src off tot n (write_loop reach sb mem n fuel src off tot (inode i) d)
  write_loop-Looped n zero inode d s i src off tot le enough fits_s fits_o all =
      Looped-over n zero inode d s i src off tot (omega arith)
  write_loop-Looped n (suc fuel) inode d s i src off tot le enough fits_s fits_o all =
      elim (Bool-cases (ltb tot n)) [
        | inr over ↦ Looped-over n (suc fuel) inode d s i src off tot (ground arith)
        | inl more ↦
            let lt : tot < n = ground arith in
            let k : ℕ = part n tot off in
            let (k_pos, k_le, k_fits) = part_bounds n tot off lt in
            let inside : off / bsize < maxfile = omega arith in
            let (ip, d', r) =
              write_round-RoundAs sb reach mem mem_bytes inode d s i src off k inside k_fits
                (all src k (omega arith) (omega arith)) in
            elim r [
              | inr (run, w, full) ↦ record {
                m = 0;
                ip = ip;
                d' = d';
                answer =
                    no_more n fuel src off tot (inode i) d ip d' lt run
                    ∙ at_end ip d' (omega arith) (omega arith);
                most = omega arith;
                wrote = w;
                ended = inr full;
              }
              | inl (run, w) ↦
                  let f = update inode i ip in
                  let l =
                    write_loop-Looped n fuel f d' w.sound i (src + k) (off + k) (tot + k) k_le
                      (omega arith) (omega arith) (omega arith)
                      (λ a q lo hi. all a q (omega arith) (omega arith)) in
                  record {
                    m = k + l.m;
                    ip = l.ip;
                    d' = l.d';
                    answer =
                        goes_on n fuel src off tot (src + k) (off + k) (inode i) d k ip d' lt run
                          (omega arith) (omega arith)
                        ∙ ap
                            (λ x. write_loop reach sb mem n fuel (src + k) (off + k) (tot + k) x d')
                            (sym (update_self inode i ip))
                        ∙ l.answer
                        ∙ at_end l.ip l.d' (omega arith) (omega arith);
                    most = omega (arith, l.most);
                    wrote =
                        Wrote-then inode d s i src off k l.m (src + k) (off + k) ip d' w.sound l.ip
                          l.d' refl refl w l.wrote;
                    ended = elim l.ended [ inl e ↦ inl (omega arith) | inr full ↦ inr full ];
                  }
            ]
      ]
