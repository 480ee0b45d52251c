-- ===== src/Kernel/File/Transfer.antt =====
-- kernel/file.c: `fileread` and `filewrite`; kernel/sysfile.c: `sys_read`, `sys_write` and `sys_lseek`.
--
-- What they call, the pipes, the devices, the inode layer and the log, is a record of operations on
-- a state `W` of the rest of the kernel.
use Prim.Native.Nat.{bit_and}
use xv6_tp.Base.{
  ℕ, zero, suc, ◌+◌, ◌-◌, ◌*◌, ◌/◌, ◌%◌, ◌^◌, Bool, false, not, ◌&&◌, ◌||◌, Option, none, some,
  ◌==◌, ltb, if◌then◌else◌, ℤ, pos, negsuc, array_index,
}
use xv6_tp.Base.Run.{Run, done, panics, out_of_fuel, ◌>>=◌}
use xv6_tp.Kernel.Log.{max_op_blocks}
use xv6_tp.Kernel.File.{File, Files, fd_none, fd_pipe, fd_inode, fd_device, set_file}
use xv6_tp.Kernel.File.Descriptors.{argfd}

abbrev pub ndev : ℕ
ndev = 10

-- The bytes of a block.
abbrev pub bsize : ℕ
bsize = 1024

pub record Backend {ℓ} (W : Type ℓ) : Type ℓ where
  pub piperead : (pipe addr : ℕ) (n : ℤ) → W → ℤ × W
  pub pipewrite : (pipe addr : ℕ) (n : ℤ) → W → ℤ × W
  -- `devsw[major].read` and `.write`
  pub device_read : (major : ℕ) → Option ((addr : ℕ) (n : ℤ) → W → ℤ × W)
  pub device_write : (major : ℕ) → Option ((addr : ℕ) (n : ℤ) → W → ℤ × W)
  pub readi : (ip addr off n : ℕ) → W → ℤ × W
  pub writei : (ip addr off n : ℕ) → W → ℤ × W
  pub ilock : (ip : ℕ) → W → W
  pub iunlock : (ip : ℕ) → W → W
  pub begin_op : W → W
  pub end_op : W → W

-- An `int` that is passed as a `uint`.
abbrev pub to_uint : ℤ → ℕ
to_uint (pos k) = k
to_uint (negsuc k) = 2 ^ 32 - 1 - k

-- `if(r > 0) f->off += r`
abbrev pub advance : ℤ → ℕ → ℕ
advance (pos k) off = if ltb 0 k then (off + k) % 2 ^ 32 else off
advance (negsuc k) off = off

abbrev pub chunk_max : ℕ
chunk_max = (max_op_blocks - 1 - 1 - 2) / 2 * bsize

abbrev pub chunk_size : (n i : ℕ) → ℕ
chunk_size n i = if ltb chunk_max (n - i) then chunk_max else n - i

module _ {ℓ} {W : Type ℓ} (b : Backend W) where
  abbrev pub on_device :
      (f : File)
      → Option ((addr : ℕ) (n : ℤ) → W → ℤ × W)
      → (addr : ℕ) (n : ℤ) → W
      → Run (ℤ × File × W)
  on_device f none addr n w = done (negsuc 0, f, w)
  on_device f (some call) addr n w = let (r, w') = call addr n w in done (r, f, w')

  abbrev pub device :
      ((major : ℕ) → Option ((addr : ℕ) (n : ℤ) → W → ℤ × W))
      → ℤ
      → Option ((addr : ℕ) (n : ℤ) → W → ℤ × W)
  device table major = elim (array_index ndev major) [ none ↦ none | some m ↦ table m ]

  abbrev pub read_inode : (addr : ℕ) (n : ℤ) → File → Option ℕ → W → Run (ℤ × File × W)
  read_inode addr n f none w = panics
  read_inode addr n f (some ip) w =
      let (r, w') = b.readi ip addr f.off (to_uint n) (b.ilock ip w) in
      done (r, record f { off = advance r f.off }, b.iunlock ip w')

  unfoldable pub fileread : (addr : ℕ) (n : ℤ) → File → W → Run (ℤ × File × W)
  fileread addr n f w = if not f.readable then done (negsuc 0, f, w) else elim f.type [
    | fd_pipe ↦ let (r, w') = b.piperead f.pipe addr n w in done (r, f, w')
    | fd_device ↦ on_device f (device b.device_read f.major) addr n w
    | fd_inode ↦ read_inode addr n f f.ip w
    | fd_none ↦ panics
  ]

  -- One transaction of the loop, of `n1` bytes from position `i`.
  unfoldable pub write_chunk : (ip addr i off n1 : ℕ) → W → ℤ × W
  write_chunk ip addr i off n1 w =
      let (r, w') = b.writei ip ((addr + i) % 2 ^ 64) off n1 (b.ilock ip (b.begin_op w)) in
      (r, b.end_op (b.iunlock ip w'))

  -- The loop from position `i`; the answer is the position, the offset and the state at its end.
  unfoldable pub write_loop : (ip addr n fuel i off : ℕ) → W → Run (ℕ × ℕ × W)
  write_loop ip addr n zero i off w = if ltb i n then out_of_fuel else done (i, off, w)
  write_loop ip addr n (suc fuel) i off w =
      let n1 : ℕ = chunk_size n i in
      let (r, w') = write_chunk ip addr i off n1 w in
      let rest = write_loop ip addr n fuel (i + n1) (advance r off) w' in
      if ltb i n
      then elim r [
        | negsuc k ↦ done (i, off, w')
        | pos k ↦ if k == n1 then rest else done (i, advance (pos k) off, w')
      ]
      else done (i, off, w)

  abbrev pub write_answer : ℕ → File → ℕ × ℕ × W → Run (ℤ × File × W)
  write_answer n f (i, off, w) =
      done (if i == n then pos n else negsuc 0, record f { off = off }, w)

  abbrev pub write_inode : (addr : ℕ) → ℤ → File → Option ℕ → W → Run (ℤ × File × W)
  write_inode addr n f none w = panics
  write_inode addr (negsuc k) f (some ip) w = done (negsuc 0, f, w)
  write_inode addr (pos n) f (some ip) w = write_loop ip addr n n 0 f.off w >>= write_answer n f

  unfoldable pub filewrite : (addr : ℕ) (n : ℤ) → File → W → Run (ℤ × File × W)
  filewrite addr n f w = if not f.writable then done (negsuc 0, f, w) else elim f.type [
    | fd_pipe ↦ let (r, w') = b.pipewrite f.pipe addr n w in done (r, f, w')
    | fd_device ↦ on_device f (device b.device_write f.major) addr n w
    | fd_inode ↦ write_inode addr n f f.ip w
    | fd_none ↦ panics
  ]

abbrev pub s_irusr : ℕ
s_irusr = 4

abbrev pub s_iwusr : ℕ
s_iwusr = 2

abbrev pub t_dir : ℕ
t_dir = 1

-- The fields of an inode in memory that the calls on descriptors look at.
pub record Inode : Type 0 where
  pub type : ℕ
  pub major : ℤ
  pub size : ℕ
  pub mode : ℕ

abbrev pub lacks : ℕ → Inode → Bool
lacks bit ip = (bit_and ip.mode bit == 0) && not (ip.type == t_dir)

-- `f->ip && !(f->ip->mode & bit) && f->ip->type != T_DIR`, whatever the type of the file
abbrev pub denied : (ℕ → Inode) → ℕ → Option ℕ → Bool
denied inode bit none = false
denied inode bit (some ip) = lacks bit (inode ip)

abbrev pub keep_file {ℓ} : {W : Type ℓ} → ℕ → Files → ℤ × File × W → Run (ℤ × Files × W)
keep_file f s (r, x, w) = done (r, set_file f x s, w)

module _ {ℓ} {W : Type ℓ} (b : Backend W) (inode : ℕ → Inode) where
  unfoldable pub sys_read : (me : ℕ) (fd : ℤ) (addr : ℕ) (n : ℤ) → Files → W → Run (ℤ × Files × W)
  sys_read me fd addr n s w = elim (argfd me fd s) [
    | none ↦ done (negsuc 0, s, w)
    | some (d, f) ↦
        if denied inode s_irusr (s.file f).ip
        then done (negsuc 0, s, w)
        else fileread b addr n (s.file f) w >>= keep_file f s
  ]

  unfoldable pub sys_write : (me : ℕ) (fd : ℤ) (addr : ℕ) (n : ℤ) → Files → W → Run (ℤ × Files × W)
  sys_write me fd addr n s w = elim (argfd me fd s) [
    | none ↦ done (negsuc 0, s, w)
    | some (d, f) ↦
        if denied inode s_iwusr (s.file f).ip
        then done (negsuc 0, s, w)
        else filewrite b addr n (s.file f) w >>= keep_file f s
  ]

-- The sum of a `uint` and an `int`.
abbrev pub add_uint : ℕ → ℤ → ℕ
add_uint u (pos k) = (u + k) % 2 ^ 32
add_uint u (negsuc k) = (u + (2 ^ 32 - 1 - k)) % 2 ^ 32

abbrev pub seek_set : ℕ
seek_set = 0

abbrev pub seek_cur : ℕ
seek_cur = 1

abbrev pub seek_end : ℕ
seek_end = 2

-- A test `x < 0` of a `uint` is false.
abbrev pub seek_to : (size off : ℕ) (offset : ℤ) (whence : ℕ) → Option ℕ
seek_to size off offset whence =
    if whence == seek_set
    then (elim offset [ negsuc k ↦ none | pos k ↦ if ltb size k then none else some k ])
    else if whence == seek_cur
    then (if ltb size (add_uint off offset) then none else some (add_uint off offset))
    else if whence == seek_end
    then (elim offset [
      | pos k ↦ if ltb 0 k then none else some (add_uint size (pos k))
      | negsuc k ↦ some (add_uint size (negsuc k))
    ])
    else none

abbrev pub seek_file : ℕ → Files → Option ℕ → ℤ × Files
seek_file f s none = (negsuc 0, s)
seek_file f s (some off) = (pos off, set_file f (record (s.file f) { off = off }) s)

-- Whether `f->ip` is read: not behind a test of `offset` that fails before.
abbrev pub reads_inode : (offset : ℤ) (whence : ℕ) → Bool
reads_inode (negsuc k) whence = whence == seek_cur || whence == seek_end
reads_inode (pos k) whence =
    whence == seek_set || whence == seek_cur || (whence == seek_end && k == 0)

-- To read a null `f->ip` is a panic. `whence` is 3 for every other value.
unfoldable pub sys_lseek :
    (ℕ → Inode) → (me : ℕ) (fd offset : ℤ) (whence : ℕ) → Files → Run (ℤ × Files)
sys_lseek inode me fd offset whence s = elim (argfd me fd s) [
  | none ↦ done (negsuc 0, s)
  | some (d, f) ↦ elim (s.file f).ip [
    | none ↦ if reads_inode offset whence then panics else done (negsuc 0, s)
    | some ip ↦ done (seek_file f s (seek_to (inode ip).size (s.file f).off offset whence))
  ]
]
