-- ===== src/Kernel/Log.antt =====
-- kernel/log.c: the write-ahead log of disk blocks.
--
-- A block is its `BSIZE / 4` words. The buffer cache (kernel/bio.c) is seen through what `bread`
-- gives for each block: `cache b` is the data of the buffer of block `b`, which is the disk's
-- block until something writes to the buffer. `bwrite` is the only operation that reaches the disk.
-- `power` counts the disk writes that are still carried out: the machine stops after them, and
-- nothing that it would have done then has an effect on the disk.
pub mod Stands
pub mod Install
pub mod Recovery
pub mod Keeps
pub mod Copy
pub mod Commit
pub mod Write
pub mod Space
mod Tests
use xv6_tp.Base.{
  ℕ, zero, suc, ◌+◌, ◌-◌, ◌*◌, Bool, true, false, ◌||◌, Option, none, some, ◌==◌, ltb, leb,
  if◌then◌else◌, update, find_first, for_below,
}

abbrev pub Block : Type 0
Block = ℕ → ℕ

abbrev pub log_size_max : ℕ
log_size_max = 30

abbrev pub max_op_blocks : ℕ
max_op_blocks = 10

-- `struct logheader`
pub record LogHeader : Type 0 where
  pub n : ℕ
  pub block : ℕ → ℕ

-- `struct log`, less its spinlock
pub record Log : Type 0 where
  pub start : ℕ
  pub size : ℕ
  pub outstanding : ℕ
  pub committing : Bool
  pub dev : ℕ
  pub lh : LogHeader

-- The log with the disk, the buffers and the references that `bpin` holds on them.
pub record Machine : Type 0 where
  pub disk : ℕ → Block
  pub cache : ℕ → Block
  pub pins : ℕ → ℕ
  pub power : ℕ
  pub log : Log

-- kernel/bio.c, as the log uses it
abbrev pub set_data : ℕ → Block → Machine → Machine
set_data b d s = record s { cache = update s.cache b d }

unfoldable pub bwrite : ℕ → Machine → Machine
bwrite b s = elim s.power [
  | zero ↦ s
  | suc p ↦ record s { disk = update s.disk b (s.cache b); power = p }
]

unfoldable pub bpin : ℕ → Machine → Machine
bpin b s = record s { pins = update s.pins b (s.pins b + 1) }

unfoldable pub bunpin : ℕ → Machine → Machine
bunpin b s = record s { pins = update s.pins b (s.pins b - 1) }

install_one : Bool → ℕ → Machine → Machine
install_one recovering tail s =
    let dst = s.log.lh.block tail in
    let s' = bwrite dst (set_data dst (s.cache (s.log.start + tail + 1)) s) in
    if recovering then s' else bunpin dst s'

pub install_trans : Bool → Machine → Machine
install_trans recovering s = for_below (install_one recovering) s.log.lh.n s

abbrev pub with_header : LogHeader → Machine → Machine
with_header h s = record s { log = record (s.log) { lh = h } }

-- Words 1 to n of a header block, from and to the array in memory.
abbrev pub read_blocks : ℕ → Block → (ℕ → ℕ) → ℕ → ℕ
read_blocks n d old i = if ltb i n then d (i + 1) else old i

abbrev pub write_words : LogHeader → Block → Block
write_words h d zero = h.n
write_words h d (suc i) = if ltb i h.n then h.block i else d (suc i)

pub read_head : Machine → Machine
read_head s =
    let d = s.cache s.log.start in
    with_header (record { n = d 0; block = read_blocks (d 0) d s.log.lh.block }) s

pub write_head : Machine → Machine
write_head s =
    let start = s.log.start in
    bwrite start (set_data start (write_words s.log.lh (s.cache start)) s)

abbrev pub clear_header : Machine → Machine
clear_header s = with_header (record (s.log.lh) { n = 0 }) s

pub recover_from_log : Machine → Machine
recover_from_log s = write_head (clear_header (install_trans true (read_head s)))

write_one : ℕ → Machine → Machine
write_one tail s =
    let to = s.log.start + tail + 1 in bwrite to (set_data to (s.cache (s.log.lh.block tail)) s)

pub write_log : Machine → Machine
write_log s = for_below write_one s.log.lh.n s

pub commit : Machine → Machine
commit s =
    if ltb 0 s.log.lh.n
    then write_head (clear_header (install_trans false (write_head (write_log s))))
    else s

-- The start and the size are those of the superblock.
pub initlog : ℕ → ℕ → ℕ → Machine → Machine
initlog dev logstart nlog s =
    recover_from_log
      (record s { log = record (s.log) { start = logstart; size = nlog; dev = dev } })

-- One turn of the loop of `begin_op`; `none` if the caller goes to sleep on the log.
pub begin_op : Log → Option Log
begin_op l =
    if l.committing
    then none
    else if ltb log_size_max (l.lh.n + (l.outstanding + 1) * max_op_blocks)
    then none
    else some (record l { outstanding = l.outstanding + 1 })

-- What `end_op` is left to do: commit, or only wake those that wait for space.
pub data Ending : Type 0 where
  panics : Ending
  commits : Log → Ending
  wakes : Log → Ending

-- `outstanding` is at least 1, since each call follows a `begin_op`.
pub end_op_enter : Log → Ending
end_op_enter l =
    let l' = record l { outstanding = l.outstanding - 1 } in
    if l.committing
    then panics
    else if l'.outstanding == 0
    then commits (record l' { committing = true })
    else wakes l'

-- The rest of `end_op` of a call that commits. Between the two parts the log lock is free and
-- `committing` is set.
pub end_op_commit : Machine → Machine
end_op_commit s = let s' = commit s in record s' { log = record (s'.log) { committing = false } }

-- `i` of `log_write` when its loop ends: where the block is logged, or the end.
abbrev pub log_position : LogHeader → ℕ → ℕ
log_position h blockno = elim (find_first (λ i. h.block i == blockno) h.n) [
  | some i ↦ i
  | none ↦ h.n
]

-- `none` is a panic: too big a transaction, or outside of one.
pub log_write : ℕ → Machine → Option Machine
log_write blockno s =
    let l = s.log in
    let h = l.lh in
    let i = log_position h blockno in
    let h' : LogHeader = record h { block = update h.block i blockno } in
    if leb log_size_max h.n || leb (l.size - 1) h.n
    then none
    else if ltb l.outstanding 1
    then none
    else if i == h.n
    then some (bpin blockno (with_header (record h' { n = h.n + 1 }) s))
    else some (with_header h' s)
