-- ===== src/Kernel.antt =====
-- The kernel's components, one module for each file of kernel/.
pub mod Mutex
pub mod Log
pub mod Kalloc
pub mod Pipe
pub mod Proc
pub mod File
pub mod Bio
pub mod Block
pub mod Inode
pub mod Itable
pub mod Dir
pub mod Paths
pub mod Str
pub mod Console
pub mod Fs
