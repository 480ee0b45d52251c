-- ===== src/Lib.antt =====
-- The xv6 kernel of this repository (C, kernel/) and two routines of its user library (user/): models
-- of its components and what makes them correct.
--
-- The parts and how they interact. System calls (kernel/sysfile.c, kernel/sysproc.c) find the calling
-- process and its descriptors in the process table (kernel/proc.c), take files from the file table
-- (kernel/file.c), and work on pipes (kernel/pipe.c) or, inside a transaction of the log
-- (kernel/log.c), on inodes and blocks of the buffer cache (kernel/bio.c). Pages come from
-- kernel/kalloc.c. User mutexes are a table of their own (kernel/mutex.c).
--
-- Files. Each component `Kernel/X.antt` models kernel/x.c; its children hold the rest of its
-- operations and the proofs, named for what they show, and `Tests` applies the theorems.
--   Base         shared names, Boolean tests, integers, scans of arrays, counted loops, `Run`
--   Kernel/Mutex   kernel/mutex.c, kernel/mutex.h: the mutex table; `System` is the step relation of
--                  processes that call it
--   Kernel/Log     kernel/log.c over a disk: `Machine` has the disk, the log in memory, the buffer
--                  cache as a map of blocks, and the number of disk writes before the power fails
--   Kernel/Kalloc  kernel/kalloc.c: the list of free pages
--   Kernel/Pipe    kernel/pipe.c: one turn of `pipewrite` or `piperead` at a time, up to a sleep
--   Kernel/Proc    kernel/proc.c, kernel/proc.h: the process table; `Life` has `fork`, `exit`, `wait`,
--                  `kill`, `Sched` has sleeping and scheduling; `Cpus` is the step relation of CPUs
--   Kernel/File    kernel/file.c and the calls of kernel/sysfile.c on descriptors; `Descriptors` has
--                  `dup`, `close` and `pipe`, `Transfer` has reads, writes and `lseek`, `Open` has `open`
--   Kernel/Bio     kernel/bio.c: the buffer cache, its list of buffers as a list of slots
--   Kernel/Str     kernel/string.c over memory as a map of bytes
--   Kernel/Console kernel/console.c: the input buffer; `Keys` and `Reads` compare it with lists
--   Kernel/Block   kernel/fs.c: the free-block bitmap, `balloc`, `bfree`, `bzero`, the superblock
--   Kernel/Inode   kernel/fs.c: the content of inodes, `bmap`, `itrunc`, `readi`, `writei`, and their
--                  copies on the disk; `Slots` has the invariant, `Layer` puts `writei` under `filewrite`
--   Kernel/Itable  kernel/fs.c: the table of inodes, `iget`, `iput`, `ialloc`, as counts of references
--   Kernel/Dir     kernel/fs.c: `dirlookup`, `dirlink`; kernel/sysfile.c: `isdirempty`
--   Kernel/Paths   kernel/sysfile.c: `link`, `unlink`, `create`, `mkdir`, `mknod`, `chdir`, `chmod`, on
--                  the references, locks and link counts of inodes
--   Kernel/Fs      kernel/fs.c: path names, `skipelem`, `namex`, `namei`, `nameiparent`
--   User           user/ulib.c: `atoi`; user/printf.c: `printint`
--
-- Conventions. Pointers to slots of a table are slot numbers, other pointers are numbers with 0 for
-- null. A 32-bit counter wraps (`% 2 ^ 32`). A function that can panic answers `Run` or a type of its
-- own with a panic. What a function asks of a part that is modelled elsewhere or not at all is an
-- argument: its answer, a list of the calls made, or a record of operations with the laws that are
-- needed (`Backend` and `WriteLaws` for the inode layer). A critical section under a spinlock is one
-- atomic step, and a sleep ends a step; `mutex_create`, whose lock is not that of the calls it meets,
-- has a step for each access, and `end_op` one for each of its two critical sections, the commit with
-- the second. Changes of blocks (Kernel/Block and what stands on it) take `log_write` as having room;
-- its panics are in Kernel/Log. Theorems on the inodes of a table are about those in use that were
-- read from the disk: `live` takes every other slot as an empty file.
--
-- Fuel. `printint` runs with 32 rounds, since each divides a 32-bit number by at least 2, and `atoi`
-- with one for each digit. The loops over the entries of a directory run once for each entry and once
-- more. The rounds of a counted loop are its bound. `freerange` runs with one round per page of memory
-- and one more; `filewrite`, `readi` and `writei` run with `n` rounds, since each round moves at least
-- one byte. That this is enough is part of the theorems on them.
--
-- Not modelled: `sys_fstat` and `sys_exec` (kernel/sysfile.c), page tables and traps (kernel/vm.c,
-- kernel/trap.c, kernel/exec.c), which are mostly registers and hardware tables; the devices
-- (kernel/uart.c, kernel/virtio_disk.c, kernel/plic.c), output (kernel/printf.c) and assembly; the user
-- programs and library (user/) but for `atoi` and `printint`; mkfs/. Spinlocks, sleeplocks
-- (kernel/spinlock.c, kernel/sleeplock.c) and the memory model are taken as correct.
pub mod Base
pub mod Kernel
pub mod User
