-- ===== src/Kernel/Inode/Copies.antt =====
-- kernel/fs.c: `readi` and `writei`.
use xv6_tp.Base.{
  ℕ, zero, suc, ◌+◌, ◌-◌, ◌*◌, ◌/◌, ◌%◌, ◌^◌, not, ◌||◌, ◌==◌, ltb, if◌then◌else◌, update, ℤ, pos,
  negsuc,
}
use xv6_tp.Base.Run.{Run, done, panics, out_of_fuel, ◌>>=◌}
use xv6_tp.Kernel.File.Transfer.{bsize}
use xv6_tp.Kernel.Block.{Superblock, Disk, write_block}
use xv6_tp.Kernel.Inode.{Inode, maxfile, bmap, iupdate, paste, part}

-- The end of a round of a loop: the next one follows behind `m` more bytes, or the loop is left,
-- because there is no block or because the copy failed.
pub data Round : Type 0 where
  copies : ℕ → Round
  no_block : Round
  faults : Round

-- `if(off + n > ip->size) n = ip->size - off;`
abbrev pub clip : (size off n : ℕ) → ℕ
clip size off n = if ltb size ((off + n) % 2 ^ 32) then size - off else n

abbrev pub grown : ℕ → Inode → Inode
grown off ip = if ltb ip.size off then record ip { size = off } else ip

abbrev pub write_end : Superblock → ℕ × ℕ × Inode × Disk → ℤ × Inode × Disk
write_end sb (tot, off, ip, d) = (pos tot, grown off ip, iupdate sb (grown off ip) d)

module _ (reach : (addr n : ℕ) → ℕ) where
  abbrev pub read_part :
      (dst off m : ℕ) → (ℕ → ℕ) → ℕ × Inode × Disk → Round × (ℕ → ℕ) × Inode × Disk
  read_part dst off m mem (zero, ip, d) = (no_block, mem, ip, d)
  read_part dst off m mem (suc b, ip, d) = (
    if reach dst m == m then copies m else faults,
    paste (d.bytes (suc b)) (off % bsize) dst (reach dst m) mem,
    ip,
    d,
  )

  unfoldable pub read_round :
      Superblock → (dst off m : ℕ) → (ℕ → ℕ) → Inode → Disk → Run (Round × (ℕ → ℕ) × Inode × Disk)
  read_round sb dst off m mem ip d =
      bmap sb (off / bsize) ip d >>= (λ s. done (read_part dst off m mem s))

  -- Each round copies a byte or more, so there are at most `n`.
  unfoldable pub read_loop :
      Superblock
      → (n fuel dst off tot : ℕ) → (ℕ → ℕ)
      → Inode
      → Disk
      → Run (ℤ × (ℕ → ℕ) × Inode × Disk)
  read_loop sb n zero dst off tot mem ip d =
      if ltb tot n then out_of_fuel else done (pos tot, mem, ip, d)
  read_loop sb n (suc fuel) dst off tot mem ip d =
      if not (ltb tot n)
      then done (pos tot, mem, ip, d)
      else elim (read_round sb dst off (part n tot off) mem ip d) [
        | panics ↦ panics
        | out_of_fuel ↦ out_of_fuel
        | done (no_block, mem', ip', d') ↦ done (pos tot, mem', ip', d')
        | done (faults, mem', ip', d') ↦ done (negsuc 0, mem', ip', d')
        | done (copies m, mem', ip', d') ↦
            read_loop sb n fuel ((dst + m) % 2 ^ 64) ((off + m) % 2 ^ 32) (tot + m) mem' ip' d'
      ]

  unfoldable pub readi :
      Superblock → (dst off n : ℕ) → (ℕ → ℕ) → Inode → Disk → Run (ℤ × (ℕ → ℕ) × Inode × Disk)
  readi sb dst off n mem ip d =
      if ltb ip.size off || ltb ((off + n) % 2 ^ 32) off
      then done (pos 0, mem, ip, d)
      else read_loop sb (clip ip.size off n) (clip ip.size off n) dst off 0 mem ip d

  -- A copy that fails leaves what it copied in the buffer, which is not given to the log.
  abbrev pub write_part : (mem : ℕ → ℕ) (src off m : ℕ) → ℕ × Inode × Disk → Round × Inode × Disk
  write_part mem src off m (zero, ip, d) = (no_block, ip, d)
  write_part mem src off m (suc b, ip, d) =
      let block = paste mem src (off % bsize) (reach src m) (d.bytes (suc b)) in
      if reach src m == m
      then (copies m, ip, write_block (suc b) block d)
      else (faults, ip, record d { bytes = update d.bytes (suc b) block })

  unfoldable pub write_round :
      Superblock → (mem : ℕ → ℕ) (src off m : ℕ) → Inode → Disk → Run (Round × Inode × Disk)
  write_round sb mem src off m ip d =
      bmap sb (off / bsize) ip d >>= (λ s. done (write_part mem src off m s))

  -- The bytes written, the offset behind them, the inode and the disk.
  unfoldable pub write_loop :
      Superblock
      → (mem : ℕ → ℕ) (n fuel src off tot : ℕ) → Inode
      → Disk
      → Run (ℕ × ℕ × Inode × Disk)
  write_loop sb mem n zero src off tot ip d =
      if ltb tot n then out_of_fuel else done (tot, off, ip, d)
  write_loop sb mem n (suc fuel) src off tot ip d =
      if not (ltb tot n)
      then done (tot, off, ip, d)
      else elim (write_round sb mem src off (part n tot off) ip d) [
        | panics ↦ panics
        | out_of_fuel ↦ out_of_fuel
        | done (no_block, ip', d') ↦ done (tot, off, ip', d')
        | done (faults, ip', d') ↦ done (tot, off, ip', d')
        | done (copies m, ip', d') ↦
            write_loop sb mem n fuel ((src + m) % 2 ^ 64) ((off + m) % 2 ^ 32) (tot + m) ip' d'
      ]

  unfoldable pub writei :
      Superblock → (mem : ℕ → ℕ) (src off n : ℕ) → Inode → Disk → Run (ℤ × Inode × Disk)
  writei sb mem src off n ip d =
      if ltb ip.size off
        || ltb ((off + n) % 2 ^ 32) off
        || ltb (maxfile * bsize) ((off + n) % 2 ^ 32)
      then done (negsuc 0, ip, d)
      else write_loop sb mem n n src off 0 ip d >>= (λ r. done (write_end sb r))
