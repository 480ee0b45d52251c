-- ===== src/Kernel/Proc.antt =====
-- kernel/proc.c and kernel/proc.h: the process table.
--
-- A process is known by its slot. A critical section is one atomic step. What other parts of the
-- kernel do for the process table is a list of events, and what they answer (a page or none, a page
-- table or none) is an argument. A string field holds its text up to the terminating 0.
pub mod Life
pub mod Slots
pub mod Running
pub mod Cpus
pub mod Pids
pub mod Unique
pub mod Children
pub mod Kill
mod Tests
pub mod Sched
use xv6_tp.Base.{
  ℕ, ◌+◌, ◌-◌, ◌*◌, ◌%◌, ◌^◌, Bool, true, false, ◌&&◌, Option, none, some, List, [], ◌∷◌, ◌++◌,
  ◌==◌, ltb, if◌then◌else◌, ℤ, pos, negsuc, update, find_first,
}

-- `enum procstate`
pub data ProcState : Type 0 where
  unused used sleeping runnable running zombie : ProcState

abbrev pub same_state : ProcState → ProcState → Bool
same_state unused unused = true
same_state used used = true
same_state sleeping sleeping = true
same_state runnable runnable = true
same_state running running = true
same_state zombie zombie = true
same_state _ _ = false

abbrev pub nproc : ℕ
nproc = 64

abbrev pub nofile : ℕ
nofile = 16

-- `struct context`: the callee-saved registers besides `ra` and `sp` are `saved`.
pub record Context : Type 0 where
  pub ra : ℕ
  pub sp : ℕ
  pub saved : ℕ → ℕ

-- `struct proc`, less its spinlock. Pointers are numbers with 0 for null, but for `parent`, `ofile`
-- and `cwd`, which are a slot of the table, a file and an inode.
pub record Proc : Type 0 where
  pub state : ProcState
  pub chan : ℕ
  pub killed : Bool
  pub xstate : ℤ
  pub pid : ℕ
  pub parent : Option ℕ
  pub kstack : ℕ
  pub sz : ℕ
  pub pagetable : ℕ
  pub trapframe : ℕ
  pub context : Context
  pub ofile : ℕ → Option ℕ
  pub cwd : Option ℕ
  pub name : List ℕ

-- Calls into other parts of the kernel.
pub data Event : Type 0 where
  kfree : ℕ → Event
  proc_freepagetable : (pagetable sz : ℕ) → Event
  filedup fileclose : ℕ → Event
  idup iput : ℕ → Event
  begin_op end_op : Event

-- `frame` gives the registers saved in the trapframe at an address.
pub record Kernel : Type 0 where
  pub proc : ℕ → Proc
  pub nextpid : ℕ
  pub initproc : ℕ
  pub frame : ℕ → ℕ → ℕ
  pub events : List Event

abbrev pub set_proc : Kernel → ℕ → Proc → Kernel
set_proc k i p = record k { proc = update k.proc i p }

abbrev pub log_event : Event → Kernel → Kernel
log_event e k = record k { events = k.events ++ (e ∷ []) }

abbrev pub is_state : ProcState → Kernel → ℕ → Bool
is_state s k i = same_state (k.proc i).state s

-- `KSTACK(p)`, below the trampoline page
abbrev pub kstack_of : ℕ → ℕ
kstack_of i = 2 ^ 38 - 4096 - (i + 1) * 2 * 4096

pub procinit : Kernel → Kernel
procinit k = record k {
  proc = λ i.
      if ltb i nproc then record (k.proc i) { state = unused; kstack = kstack_of i } else k.proc i;
}

-- The value of an `int` that is given as its 32 bits.
abbrev pub as_int : ℕ → ℤ
as_int n = if ltb n (2 ^ 31) then pos n else negsuc (2 ^ 32 - 1 - n)

-- `nextpid` and the pids are the 32 bits of an `int`.
pub allocpid : Kernel → ℕ × Kernel
allocpid k = (k.nextpid, record k { nextpid = (k.nextpid + 1) % 2 ^ 32 })

pub freeproc : ℕ → Kernel → Kernel
freeproc i k =
    let p = k.proc i in
    let k' = if p.trapframe == 0 then k else log_event (kfree p.trapframe) k in
    let k'' = if p.pagetable == 0 then k' else log_event (proc_freepagetable p.pagetable p.sz) k' in
    set_proc k'' i (record p {
      trapframe = 0;
      pagetable = 0;
      sz = 0;
      pid = 0;
      parent = none;
      name = [];
      chan = 0;
      killed = false;
      xstate = pos 0;
      state = unused;
    })

-- `page` is the answer of `kalloc` and `table` that of `proc_pagetable`, each 0 if it fails.
pub allocproc_at : (forkret page table : ℕ) → ℕ → Kernel → Option ℕ × Kernel
allocproc_at forkret page table i k =
    let (pid, k') = allocpid k in
    let p = record (k.proc i) { pid = pid; state = used; trapframe = page } in
    let q = record p { pagetable = table } in
    let start : Context = record { ra = forkret; sp = p.kstack + 4096; saved = λ r. 0 } in
    if page == 0
    then (none, freeproc i (set_proc k' i p))
    else if table == 0
    then (none, freeproc i (set_proc k' i q))
    else (some i, set_proc k' i (record q { context = start }))

pub allocproc : (forkret page table : ℕ) → Kernel → Option ℕ × Kernel
allocproc forkret page table k = elim (find_first (is_state unused k) nproc) [
  | none ↦ (none, k)
  | some i ↦ allocproc_at forkret page table i k
]
