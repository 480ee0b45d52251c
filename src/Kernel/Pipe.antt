-- ===== src/Kernel/Pipe.antt =====
-- kernel/pipe.c: `pipewrite`, `piperead` and `pipeclose`, one turn at a time: from the point where
-- the caller has `pi->lock` to the point where it returns or goes to sleep.
--
-- The caller's memory is a parameter: `src i` is the byte that `copyin` reads at `addr + i`, and
-- `dst i` says whether `copyout` to `addr + i` succeeds. `killed` answers the test made at each round.
pub mod Window
pub mod Write
pub mod Read
mod Tests
use xv6_tp.Base.{
  ℕ, zero, suc, ◌+◌, ◌%◌, ◌^◌, Bool, true, false, not, ◌&&◌, ◌||◌, Option, none, some, List, [],
  ◌∷◌, ◌==◌, if◌then◌else◌, update, ℤ, pos, negsuc,
}

abbrev pub pipesize : ℕ
pipesize = 512

-- `struct pipe`, less its spinlock. `nread` and `nwrite` are 32-bit counters.
pub record Pipe : Type 0 where
  pub bytes : ℕ → ℕ
  pub nread : ℕ
  pub nwrite : ℕ
  pub readopen : Bool
  pub writeopen : Bool

-- `pipealloc` sets a new pipe up so.
pub new_pipe : (ℕ → ℕ) → Pipe
new_pipe junk = record { bytes = junk; nread = 0; nwrite = 0; readopen = true; writeopen = true }

-- The sleepers that a call wakes.
pub data Wakes : Type 0 where
  nobody readers writers : Wakes

-- A turn of `pipewrite` returns, or sleeps with `i` bytes written.
pub data WriteTurn : Type 0 where
  wrote : ℤ → Wakes → Pipe → WriteTurn
  full : ℕ → Wakes → Pipe → WriteTurn

pub put : ℕ → Pipe → Pipe
put ch pi = record pi {
  bytes = update pi.bytes (pi.nwrite % pipesize) ch;
  nwrite = (pi.nwrite + 1) % 2 ^ 32;
}

-- The loop from position `i`, with `left` bytes to go.
pub pipewrite_loop : (ℕ → Bool) → (ℕ → Option ℕ) → (left i : ℕ) → Pipe → WriteTurn
pipewrite_loop killed src zero i pi = wrote (pos i) readers pi
pipewrite_loop killed src (suc left) i pi =
    if not pi.readopen || killed i
    then wrote (negsuc 0) nobody pi
    else if pi.nwrite == (pi.nread + pipesize) % 2 ^ 32
    then full i readers pi
    else elim (src i) [
      | none ↦ wrote (pos i) readers pi
      | some ch ↦ pipewrite_loop killed src left (i + 1) (put ch pi)
    ]

-- The first turn of `pipewrite(pi, addr, n)` at a count `n` that is not negative.
pub pipewrite : (ℕ → Bool) → (ℕ → Option ℕ) → ℕ → Pipe → WriteTurn
pipewrite killed src n pi = pipewrite_loop killed src n 0 pi

-- A turn of `piperead` returns, with the bytes that it copied out, or sleeps.
pub data ReadTurn : Type 0 where
  read : ℤ → List ℕ → Wakes → Pipe → ReadTurn
  empty : Pipe → ReadTurn

pub take_byte : Pipe → ℕ × Pipe
take_byte pi = (pi.bytes (pi.nread % pipesize), record pi { nread = (pi.nread + 1) % 2 ^ 32 })

abbrev pub then_read : ℕ → ReadTurn → ReadTurn
then_read ch (read r out w pi) = read r (ch ∷ out) w pi
then_read ch (empty pi) = empty pi

-- The copying loop from position `i`.
pub piperead_copy : (ℕ → Bool) → (left i : ℕ) → Pipe → ReadTurn
piperead_copy dst zero i pi = read (pos i) [] writers pi
piperead_copy dst (suc left) i pi =
    let (ch, pi') = take_byte pi in
    let rest = piperead_copy dst left (i + 1) pi' in
    if pi.nread == pi.nwrite
    then read (pos i) [] writers pi
    else if dst i
    then then_read ch rest
    else read (pos i) [] writers pi'

pub piperead : Bool → (ℕ → Bool) → ℕ → Pipe → ReadTurn
piperead killed dst n pi =
    if pi.nread == pi.nwrite && pi.writeopen
    then (if killed then read (negsuc 0) [] nobody pi else empty pi)
    else piperead_copy dst n 0 pi

-- Whether the page of the pipe is freed.
pub pipeclose : Bool → Pipe → Bool × Wakes × Pipe
pipeclose writable pi =
    let pi' =
      if writable then record pi { writeopen = false } else record pi { readopen = false } in
    (not pi'.readopen && not pi'.writeopen, if writable then readers else writers, pi')
