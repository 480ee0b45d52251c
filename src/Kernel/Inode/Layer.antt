-- ===== src/Kernel/Inode/Layer.antt =====
-- `writei` as the inode layer under `filewrite`.
use xv6_tp.Base.{
  ℕ, ◌+◌, ◌*◌, ◌/◌, ◌%◌, ◌^◌, ◌≤◌, ◌<◌, ◌≡◌, ◌≢◌, ◌⊎◌, Bool, true, false, ◌&&◌, ◌||◌, ◌==◌, ltb,
  leb, arith, refl, Bool-cases, inl, inr, ==_iff, sym, ◌∙◌, ap, update, update_self, ◌-◌, ℤ, pos,
  negsuc, some,
}
use xv6_tp.Base.Run.{done}
use xv6_tp.Kernel.Log.{max_op_blocks}
use xv6_tp.Kernel.File.{File, fd_inode}
use xv6_tp.Kernel.File.Transfer.{Backend, bsize, chunk_size}
use xv6_tp.Kernel.File.Written.{WriteLaws, Stored, filewrite-Stored, patched}
use xv6_tp.Kernel.Block.{Superblock, Disk}
use xv6_tp.Kernel.Block.Bits.{Bytes}
use xv6_tp.Kernel.Inode.{World, Inode, maxfile, ilock, iunlock}
use xv6_tp.Kernel.Inode.Copies.{writei}
use xv6_tp.Kernel.Inode.Slots.{slot, file_byte, byte_in}
use xv6_tp.Kernel.Inode.Update.{IsSound-as}
use xv6_tp.Kernel.Inode.Writei.{Accepted, writei-Accepted}
use xv6_tp.Kernel.Inode.Fine.{IsFine, at_updated, writei-IsFine}

-- `writei` refuses an offset behind the end of the file, a range that wraps around, and a file that
-- would be too large: it answers -1 and changes nothing.
pub writei-refused :
    (sb : Superblock) (reach : (addr n : ℕ) → ℕ) (mem : ℕ → ℕ) (src off n : ℕ) (ip : Inode)
    (d : Disk)
    → off < 2 ^ 32
    → n < 2 ^ 32
    → (ip.size < off) ⊎ (maxfile * bsize < off + n)
    → writei reach sb mem src off n ip d ≡ done (negsuc 0, ip, d)
unfolding writei
writei-refused sb reach mem src off n ip d off_fits n_fits bad =
    let stop : (ltb ip.size off
          || ltb ((off + n) % 2 ^ 32) off
          || ltb (maxfile * bsize) ((off + n) % 2 ^ 32))
        ≡ true =
      elim bad [ inl behind ↦ ground arith | inr large ↦ ground arith ] in
    rw stop refl

module _ (sb : Superblock) where
  abbrev pub Fs : Type 0
  Fs = (w : World) × IsFine sb w.inode w.disk

  abbrev pub bytes : Fs → ℕ → ℕ → ℕ
  bytes (w, fine) j o = file_byte (w.inode j) w.disk o

  abbrev with_lock : Bool → Inode → Inode
  with_lock b ip = record ip { locked = b }

  slot-with_lock :
      (b : Bool) (f : ℕ → Inode) (i : ℕ) (d : Disk) (j k : ℕ)
      → slot (update f i (with_lock b (f i)) j) d k ≡ slot (f j) d k
  slot-with_lock b f i d j k = elim (Bool-cases (i == j)) [
    | inl e ↦ rw e (ap (λ j. slot (f j) d k) ((==_iff _ _).0 e))
    | inr e ↦ rw e refl
  ]

  pub with_lock-IsFine :
      (b : Bool) (w : World) (i : ℕ)
      → IsFine sb w.inode w.disk
      → IsFine sb (update w.inode i (with_lock b (w.inode i))) w.disk
  with_lock-IsFine b w i fine =
      let f = w.inode in
      record {
        sound =
            IsSound-as sb f _ w.disk w.disk fine.sound fine.sound.volume (λ x lt. refl)
              (slot-with_lock b f i w.disk);
        dense = λ j o lt z.
            fine.dense j o (same_size j o lt) (sym (slot-with_lock b f i w.disk j (o / bsize)) ∙ z);
        bounded =
            at_updated (λ (x : Inode). x.size ≤ maxfile * bsize) f i _ (fine.bounded i)
              fine.bounded;
        known = at_updated (λ (x : Inode). x.inum < sb.ninodes) f i _ (fine.known i) fine.known;
      }
    where
      same_size :
          (j o : ℕ) → o < (update w.inode i (with_lock b (w.inode i)) j).size → o < (w.inode j).size
      same_size j o lt =
          let e : (update w.inode i (with_lock b (w.inode i)) j).size ≡ (w.inode j).size =
            elim (Bool-cases (i == j)) [
              | inl e ↦ rw e (ap (λ j. (w.inode j).size) ((==_iff _ _).0 e))
              | inr e ↦ rw e refl
            ] in
          omega arith

  abbrev set_lock : Bool → ℕ → Fs → Fs
  set_lock b i (w, fine) =
      (record w { inode = update w.inode i (with_lock b (w.inode i)) }, with_lock-IsFine b w i fine)

  -- That is what `ilock` and `iunlock` do to a slot in use that was read from the disk.
  pub ilock-set :
      (w : World) (i : ℕ)
      → (w.inode i).ref ≢ 0
      → (w.inode i).valid ≡ true
      → ilock sb w.disk (w.inode i) ≡ done (with_lock true (w.inode i))
  unfolding ilock
  ilock-set w i held valid =
      let has_ref : ((w.inode i).ref == 0) ≡ false = ground (arith, held) in
      rw (has_ref, valid) refl

  pub iunlock-set :
      (w : World) (i : ℕ)
      → (w.inode i).ref ≢ 0
      → (w.inode i).locked ≡ true
      → iunlock (w.inode i) ≡ done (with_lock false (w.inode i))
  unfolding iunlock
  iunlock-set w i held e =
      let has_ref : ((w.inode i).ref == 0) ≡ false = ground (arith, held) in rw (e, has_ref) refl

  module _ (mem : ℕ → ℕ) (mem_bytes : Bytes mem) where
    -- All of the caller's memory is there.
    abbrev pub all_there : (addr n : ℕ) → ℕ
    all_there addr n = n

    -- A write of the bytes of memory from `src` on, in the range that `writei` accepts.
    abbrev accepts : (i src off n : ℕ) → World → Bool
    accepts i src off n w =
        leb off (w.inode i).size && leb (off + n) (maxfile * bsize) && ltb (src + n) (2 ^ 64)

    pub accepted :
        (i src off n : ℕ) (w : World)
        → IsFine sb w.inode w.disk
        → accepts i src off n w ≡ true
        → Accepted sb all_there mem w.inode w.disk i src off n
    accepted i src off n w fine e =
        writei-Accepted sb all_there mem w.inode w.disk i src off n mem_bytes fine.sound
          (fine.known i) (ground (arith, e)) (ground (arith, e)) (ground (arith, e))
          (λ a k lo hi. refl)

    pub accepted-IsFine :
        (i src off n : ℕ) (w : World) (fine : IsFine sb w.inode w.disk)
        (e : accepts i src off n w ≡ true)
        → IsFine sb
            (update w.inode i (accepted i src off n w fine e).ip)
            (accepted i src off n w fine e).d'
    accepted-IsFine i src off n w fine e =
        writei-IsFine sb w.inode w.disk fine all_there mem i src off n
          (accepted i src off n w fine e) (ground (arith, e)) (ground (arith, e))

    abbrev run_accepted :
        (i src off n : ℕ) (w : World) (fine : IsFine sb w.inode w.disk)
        → (c : Bool) → accepts i src off n w ≡ c
        → ℤ × Fs
    run_accepted i src off n w fine false e = (negsuc 0, (w, fine))
    run_accepted i src off n w fine true e =
        let r = accepted i src off n w fine e in
        (
          pos r.m,
          (
            record { inode = update w.inode i r.ip; disk = r.d' },
            accepted-IsFine i src off n w fine e,
          ),
        )

    -- The operations of `fileread` and `filewrite` over the model of `writei`; those on pipes and devices are the
    -- others'. The log changes no block as the cache shows it.
    abbrev pub over_fs : Backend Fs → Backend Fs
    over_fs others = record others {
      writei = λ i src off n s. run_accepted i src off n s.0 s.1 (accepts i src off n s.0) refl;
      ilock = λ i s. set_lock true i s;
      iunlock = λ i s. set_lock false i s;
      begin_op = λ s. s;
      end_op = λ s. s;
    }

    module _ (i src off n : ℕ) (w : World) (fine : IsFine sb w.inode w.disk) (k : ℕ) where
      run-most :
          (c : Bool) (e : accepts i src off n w ≡ c)
          → (run_accepted i src off n w fine c e).0 ≡ pos k
          → k ≤ n
      run-most false e q = absurd (ground arith)
      run-most true e q =
          let r = accepted i src off n w fine e in
          let at : r.m ≡ k = ground arith in omega (arith, r.most)

      run-writes :
          (c : Bool) (e : accepts i src off n w ≡ c)
          → (run_accepted i src off n w fine c e).0 ≡ pos k
          → (j o : ℕ)
          → bytes (run_accepted i src off n w fine c e).1 j o
            ≡ patched mem i src off k (bytes (w, fine)) j o
      run-writes false e q j o = absurd (ground arith)
      run-writes true e q j o =
          let r = accepted i src off n w fine e in
          let at : r.m ≡ k = ground arith in
          r.content j o ∙ ap (λ m. patched mem i src off m (bytes (w, fine)) j o) at

      run-fails :
          (c : Bool) (e : accepts i src off n w ≡ c)
          → (run_accepted i src off n w fine c e).0 ≡ negsuc k
          → (j o : ℕ) → bytes (run_accepted i src off n w fine c e).1 j o ≡ bytes (w, fine) j o
      run-fails false e q j o = refl
      run-fails true e q j o = absurd (ground arith)

    lock-bytes : (b : Bool) (i : ℕ) (s : Fs) (j o : ℕ) → bytes (set_lock b i s) j o ≡ bytes s j o
    lock-bytes b i (w, fine) j o =
        ap (λ a. byte_in a o w.disk) (slot-with_lock b w.inode i w.disk j (o / bsize))

    -- The inode layer keeps what `filewrite` relies on: a `writei` that answers `k` put `k` bytes of
    -- memory, at most those asked for, into the file at the offset and changed no other byte of a
    -- file, one that fails changed none, and locking and transactions change none.
    pub over_fs-WriteLaws : (others : Backend Fs) → WriteLaws (over_fs others) mem bytes
    over_fs-WriteLaws others = record {
      begins = λ w j o. refl;
      ends = λ w j o. refl;
      locks = λ i s j o. lock-bytes true i s j o;
      unlocks = λ i s j o. lock-bytes false i s j o;
      at_most =
          λ i src off n s k e. run-most i src off n s.0 s.1 k (accepts i src off n s.0) refl e;
      writes = λ i src off n s k e j o.
          run-writes i src off n s.0 s.1 k (accepts i src off n s.0) refl e j o;
      fails = λ i src off n s k e j o.
          run-fails i src off n s.0 s.1 k (accepts i src off n s.0) refl e j o;
    }

    -- The operation `writei` of that layer does what the model of `writei` does.
    pub Agrees : Backend Fs → Type 0
    Agrees layer =
        (i src off n : ℕ) (s : Fs)
        → src + n < 2 ^ 64
        → off < 2 ^ 32
        → n < 2 ^ 32
        → let (answer, s') = layer.writei i src off n s in
          writei all_there sb mem src off n (s.0.inode i) s.0.disk
          ≡ done (answer, s'.0.inode i, s'.0.disk)

    over_fs-writei : (others : Backend Fs) → Agrees (over_fs others)
    unfolding Agrees
    over_fs-writei others i src off n (w, fine) fits off_fits n_fits =
        go (accepts i src off n w) refl
      where
        go :
            (c : Bool) (e : accepts i src off n w ≡ c)
            → let (answer, s') = run_accepted i src off n w fine c e in
              writei all_there sb mem src off n (w.inode i) w.disk
              ≡ done (answer, s'.0.inode i, s'.0.disk)
        go true e =
            let r = accepted i src off n w fine e in
            r.answer ∙ ap (λ x. done (pos r.m, x, r.d')) (sym (update_self w.inode i r.ip))
        go false e =
            writei-refused sb all_there mem src off n (w.inode i) w.disk off_fits n_fits
              (elim (Bool-cases (ltb (w.inode i).size off)) [
                | inl behind ↦ inl (ground (arith, behind))
                | inr inside ↦ inr (ground (arith, inside, e, fits))
              ])

    -- The blocks of a file that `m` bytes from an offset lie in.
    abbrev pub span : (off m : ℕ) → ℕ
    span off m = (off + m - 1) / bsize - off / bsize + 1

    chunk_size-fits : (n i off : ℕ) → i < n → 2 * span off (chunk_size n i) + 2 ≤ max_op_blocks
    chunk_size-fits n i off lt =
        let small : chunk_size n i ≤ 3 * 1024 = ground arith in
        let some_byte : 0 < chunk_size n i = ground arith in omega (arith, small, some_byte)

    -- `filewrite` over `writei`, `bmap` and `balloc`, in files that are all right (sound, with a block
    -- for each byte of their sizes; `live` makes such files of a table), with all of the caller's
    -- memory there: a write of `n` bytes to a writable file of an inode, in ranges that do not wrap
    -- around, ends; some `m` bytes of the memory, in order, are then in the file at its offset, no
    -- other byte of a file changed, the offset moved on by `m`, and the answer is `n` if `m` is `n`,
    -- otherwise -1. The `writei` that it calls answers, and makes of the inode and the disk, what
    -- the model of `writei` does; locks are taken as free, inodes as read, and the log as having room.
    -- For each chunk that is written in one transaction, the inode, the indirect block and for each
    -- of its blocks that block and one of the bitmap are at most `MAXOPBLOCKS` blocks.
    pub filewrite-writei :
        (others : Backend Fs) (addr n ip : ℕ) (f : File) (s : Fs)
        → f.writable ≡ true
        → f.type ≡ fd_inode
        → f.ip ≡ some ip
        → addr + n < 2 ^ 64
        → f.off + n < 2 ^ 32
        → Stored (over_fs others) mem bytes addr n ip f s
          × Agrees (over_fs others)
          × ((i off : ℕ) → i < n → 2 * span off (chunk_size n i) + 2 ≤ max_op_blocks)
    filewrite-writei others addr n ip f s wr ty at fits_a fits_o = (
      filewrite-Stored (over_fs others) mem bytes (over_fs-WriteLaws others) addr n ip f s wr ty at
          fits_a fits_o,
      over_fs-writei others,
      λ i off lt. chunk_size-fits n i off lt,
    )
