-- ===== src/Kernel/Proc/Life.antt =====
-- kernel/proc.c: `fork`, `exit`, `wait`, `kill` and what they call.
use xv6_tp.Base.{
  ℕ, zero, suc, length, ◌+◌, Bool, true, false, ◌&&◌, not, Option, none, some, List, [], ◌∷◌, ◌==◌,
  ltb, if◌then◌else◌, ℤ, pos, negsuc, update, find_first, for_below, take,
}
use xv6_tp.Kernel.Proc.{
  ProcState, unused, sleeping, runnable, zombie, nproc, nofile, filedup, fileclose, idup, iput,
  begin_op, end_op, Kernel, as_int, set_proc, log_event, is_state, freeproc, allocproc,
}
use xv6_tp.Kernel.Proc.Sched.{wakeup, sleep_on}

-- `kill`: the first process with the pid. The answer is 0, or -1 if there is none.
unfoldable pub kill : ℕ → Kernel → ℤ × Kernel
kill pid k = elim (find_first (λ i. (k.proc i).pid == pid) nproc) [
  | none ↦ (negsuc 0, k)
  | some i ↦
      let p = k.proc i in
      (
        pos 0,
        set_proc k i (record p {
          killed = true;
          state = if is_state sleeping k i then runnable else p.state;
        }),
      )
]

unfoldable pub setkilled : ℕ → Kernel → Kernel
setkilled i k = set_proc k i (record (k.proc i) { killed = true })

unfoldable pub killed : ℕ → Kernel → Bool
killed i k = (k.proc i).killed

-- The address at which a process sleeps in `wait` is that of its own slot.
abbrev pub is_child : ℕ → Kernel → ℕ → Bool
is_child me k i = elim (k.proc i).parent [ none ↦ false | some j ↦ j == me ]

unfoldable pub reparent_one : (me : ℕ) → (slot_address : ℕ → ℕ) → ℕ → Kernel → Kernel
reparent_one me slot_address i k =
    if is_child me k i
    then wakeup me (slot_address k.initproc)
        (set_proc k i (record (k.proc i) { parent = some k.initproc }))
    else k

unfoldable pub reparent : (me : ℕ) → (slot_address : ℕ → ℕ) → Kernel → Kernel
reparent me slot_address k = for_below (reparent_one me slot_address) nproc k

unfoldable pub dup_one : (me child : ℕ) → ℕ → Kernel → Kernel
dup_one me child fd k = elim ((k.proc me).ofile fd) [
  | none ↦ k
  | some f ↦
      log_event (filedup f) (
        set_proc k child
          (record (k.proc child) { ofile = update (k.proc child).ofile fd (some f) }))
]

-- The trapframe's `a0` is its fifteenth word.
abbrev pub a0 : ℕ
a0 = 14

-- The stages of `fork` once `uvmcopy` has succeeded: size and registers, open files, current
-- directory, and the rest up to the child's becoming runnable.
unfoldable pub fork_registers : (me np : ℕ) → Kernel → Kernel
fork_registers me np k =
    let p = k.proc me in
    let k' = set_proc k np (record (k.proc np) { sz = p.sz }) in
    let regs = update (k'.frame p.trapframe) a0 0 in
    record k' { frame = update k'.frame (k'.proc np).trapframe regs }

unfoldable pub fork_files : (me np : ℕ) → Kernel → Kernel
fork_files me np k = for_below (dup_one me np) nofile k

unfoldable pub fork_cwd : (me np : ℕ) → Kernel → Kernel
fork_cwd me np k =
    let k' : Kernel = elim (k.proc me).cwd [ none ↦ k | some ip ↦ log_event (idup ip) k ] in
    set_proc k' np (record (k'.proc np) { cwd = (k.proc me).cwd })

unfoldable pub fork_start : (me np : ℕ) → Kernel → Kernel
fork_start me np k =
    set_proc k np
      (record (k.proc np) { name = take 15 (k.proc me).name; parent = some me; state = runnable })

-- What `fork` does with the slot `np` that `allocproc` found; `copied` is the success of `uvmcopy`.
unfoldable pub fork_into : (copied : Bool) → (me np : ℕ) → Kernel → ℤ × Kernel
fork_into copied me np k =
    let child = fork_start me np (fork_cwd me np (fork_files me np (fork_registers me np k))) in
    if not copied then (negsuc 0, freeproc np k) else (as_int (child.proc np).pid, child)

-- `fork` by the process `me`.
unfoldable pub fork : (forkret page table : ℕ) → (copied : Bool) → ℕ → Kernel → ℤ × Kernel
fork forkret page table copied me k =
    let (o, k') = allocproc forkret page table k in
    elim o [ none ↦ (negsuc 0, k') | some np ↦ fork_into copied me np k' ]

unfoldable pub close_one : ℕ → ℕ → Kernel → Kernel
close_one me fd k = elim ((k.proc me).ofile fd) [
  | none ↦ k
  | some f ↦
      let k' = log_event (fileclose f) k in
      set_proc k' me
        (record (k'.proc me) { ofile = λ d. if d == fd then none else (k'.proc me).ofile d })
]

unfoldable pub put_cwd : ℕ → Kernel → Kernel
put_cwd me k =
    let k' : Kernel = elim (k.proc me).cwd [ none ↦ k | some ip ↦ log_event (iput ip) k ] in
    set_proc k' me (record (k'.proc me) { cwd = none })

-- `exit` up to its call of `sched`, from which it does not come back; `none` is its panic.
unfoldable pub exit : (slot_address : ℕ → ℕ) → (me : ℕ) → ℤ → Kernel → Option Kernel
exit slot_address me status k =
    let k1 = for_below (close_one me) nofile k in
    let k2 = log_event end_op (put_cwd me (log_event begin_op k1)) in
    let k3 = reparent me slot_address k2 in
    let chan : ℕ = elim (k3.proc me).parent [ none ↦ 0 | some q ↦ slot_address q ] in
    let k4 = wakeup me chan k3 in
    if me == k.initproc
    then none
    else some (set_proc k4 me (record (k4.proc me) { xstate = status; state = zombie }))

-- A turn of `wait` answers, or sleeps on the caller's own slot.
pub data WaitTurn : Type 0 where
  answers : ℤ → Kernel → WaitTurn
  waits : Kernel → WaitTurn

abbrev pub is_zombie_child : ℕ → Kernel → ℕ → Bool
is_zombie_child me k i = is_child me k i && is_state zombie k i

-- `to_user` tells whether `addr` is not null, and `copied` whether `copyout` succeeds.
unfoldable pub wait :
    (slot_address : ℕ → ℕ) → (to_user copied : Bool) → (me : ℕ) → Kernel → WaitTurn
wait slot_address to_user copied me k = elim (find_first (is_zombie_child me k) nproc) [
  | some i ↦
      if to_user && not copied
      then answers (negsuc 0) k
      else answers (as_int (k.proc i).pid) (freeproc i k)
  | none ↦ elim (find_first (is_child me k) nproc) [
    | none ↦ answers (negsuc 0) k
    | some i ↦ if killed me k then answers (negsuc 0) k else waits (sleep_on me (slot_address me) k)
  ]
]

-- `growproc`; `grown` is the answer of `uvmalloc` and `shrunk` that of `uvmdealloc`.
unfoldable pub growproc : (grown shrunk : ℕ) → ℕ → ℤ → Kernel → ℤ × Kernel
growproc grown shrunk me (pos zero) k = (pos 0, k)
growproc grown shrunk me (pos (suc n)) k =
    if grown == 0 then (negsuc 0, k) else (pos 0, set_proc k me (record (k.proc me) { sz = grown }))
growproc grown shrunk me (negsuc n) k = (pos 0, set_proc k me (record (k.proc me) { sz = shrunk }))

pub record ProcInfo : Type 0 where
  pub pid : ℕ
  pub state : ProcState
  pub name : List ℕ

unfoldable pub getprocs_from : Kernel → (left i : ℕ) → List ProcInfo
getprocs_from k zero i = []
getprocs_from k (suc left) i =
    let p = k.proc i in
    let rest = getprocs_from k left (i + 1) in
    let info : ProcInfo = record { pid = p.pid; state = p.state; name = take 15 p.name } in
    if is_state unused k i then rest else info ∷ rest

-- The answer of `sys_getprocs`, and what it copies out if `copyout` succeeds.
unfoldable pub sys_getprocs : Bool → Kernel → ℤ × List ProcInfo
sys_getprocs copied k =
    let infos = getprocs_from k nproc 0 in
    if ltb 0 (length infos) && not copied then (negsuc 0, []) else (pos (length infos), infos)
