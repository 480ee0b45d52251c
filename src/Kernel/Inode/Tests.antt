-- ===== src/Kernel/Inode/Tests.antt =====
-- The theorems at a file system of empty files.
use xv6_tp.Base.{ℕ, ◌+◌, ◌*◌, ◌%◌, ◌≡◌, ◌≤◌, ◌<◌, false, true, none, some, arith, refl, pos, negsuc}
use xv6_tp.Base.Run.{done}
use xv6_tp.Kernel.File.{File, fd_inode}
use xv6_tp.Kernel.File.Transfer.{Backend, chunk_size}
use xv6_tp.Kernel.Log.{max_op_blocks}
use xv6_tp.Kernel.File.Written.{Stored}
use xv6_tp.Kernel.Block.{Disk}
use xv6_tp.Kernel.Block.Bits.{Bytes}
use xv6_tp.Kernel.Block.Sample.{sb, disk, disk-IsVolume}
use xv6_tp.Kernel.Inode.{Inode, bmap, ilock, iupdate}
use xv6_tp.Kernel.Inode.Copies.{readi, clip}
use xv6_tp.Kernel.Inode.Slots.{slot, IsSound}
use xv6_tp.Kernel.Inode.Map.{Mapped, bmap-Mapped}
use xv6_tp.Kernel.Inode.Update.{IsPacked, Restored, ilock-iupdate}
use xv6_tp.Kernel.Inode.Writei.{Accepted, writei-Accepted}
use xv6_tp.Kernel.Inode.Readi.{ReadLooped, readi-ReadLooped}
use xv6_tp.Kernel.Inode.Fine.{IsFine, ReadBack, readi-writei}
use xv6_tp.Kernel.Inode.Truncated.{Truncated, itrunc-Truncated}
use xv6_tp.Kernel.Inode.Layer.{Fs, bytes, over_fs, Agrees, span, filewrite-writei}

abbrev empty_file : Inode
empty_file = record {
  dev = 1;
  inum = 1;
  ref = 1;
  locked = true;
  valid = true;
  type = 2;
  major = 0;
  minor = 0;
  nlink = 1;
  size = 0;
  addrs = λ i. 0;
  mode = 6;
}

abbrev inodes : ℕ → Inode
inodes i = empty_file

no_slots : (d : Disk) (k : ℕ) → slot empty_file d k ≡ 0
no_slots d k = ground arith

inodes-IsSound : IsSound sb inodes disk
inodes-IsSound = record {
  volume = disk-IsVolume;
  laid_out = record { inodes = omega arith; fits = omega arith };
  owns = λ i k nz. absurd (nz (no_slots disk k));
  apart = λ i j k l nz e. absurd (nz (no_slots disk k));
}

inodes-IsFine : IsFine sb inodes disk
inodes-IsFine = record {
  sound = inodes-IsSound;
  dense = λ i o lt z. omega arith;
  bounded = λ i. omega arith;
  known = λ i. omega arith;
}

-- Memory with byte `a % 256` at address `a`.
abbrev memory : ℕ → ℕ
memory a = a % 256

memory-Bytes : Bytes memory
memory-Bytes a = omega arith

abbrev all_there : ℕ → ℕ → ℕ
all_there a n = n

bmap-Mapped_example :
    (a : ℕ) × (ip : Inode) × (d' : Disk) × (bmap sb 20 empty_file disk ≡ done (a, ip, d'))
    × Mapped sb inodes disk 3 20 a ip d'
bmap-Mapped_example = bmap-Mapped sb inodes disk inodes-IsSound 3 20 (omega arith)

writei-Accepted_example : Accepted sb all_there memory inodes disk 3 500 0 3000
writei-Accepted_example =
    writei-Accepted sb all_there memory inodes disk 3 500 0 3000 memory-Bytes inodes-IsSound
      (omega arith) (omega arith) (omega arith) (omega arith) (λ a k lo hi. refl)

readi-ReadLooped_example :
    ReadLooped sb all_there inodes disk inodes-IsSound 3 500 0 0
      (clip 0 0 100)
      memory
      (readi all_there sb 500 0 100 memory empty_file disk)
readi-ReadLooped_example =
    readi-ReadLooped sb all_there inodes disk inodes-IsSound 3 500 0 100 memory (omega arith)
      (omega arith) (omega arith) (omega arith) (λ a k lo hi. refl) (λ o lo hi z. omega arith)

abbrev written : Accepted sb all_there memory inodes disk 3 500 0 3000
written =
    writei-Accepted sb all_there memory inodes disk 3 500 0 3000 memory-Bytes inodes-IsSound
      (omega arith) (omega arith) (omega arith) (omega arith) (λ a k lo hi. refl)

readi-writei_example :
    ReadBack sb inodes disk inodes-IsFine all_there memory 3 500 0 3000 written
      (omega arith)
      (omega arith)
      all_there
      9000
      memory
readi-writei_example =
    readi-writei sb inodes disk inodes-IsFine all_there memory 3 500 0 3000 written (omega arith)
      (omega arith) all_there 9000 memory (omega (arith, written.most)) (λ a k lo hi. refl)

empty_file-IsPacked : IsPacked empty_file
empty_file-IsPacked = record {
  type = omega arith;
  major = omega arith;
  minor = omega arith;
  nlink = omega arith;
  size = omega arith;
  addrs = λ i. omega arith;
  mode = omega arith;
}

abbrev slot_of_table : Inode
slot_of_table = record empty_file { valid = false; type = 0 }

ilock-iupdate_example :
    (ip' : Inode) × (ilock sb (iupdate sb empty_file disk) slot_of_table ≡ done ip')
    × Restored empty_file ip'
ilock-iupdate_example =
    ilock-iupdate sb disk empty_file slot_of_table empty_file-IsPacked (λ e. omega arith) refl
      (λ e. omega arith) refl

abbrev state : Fs sb
state = (record { inode = inodes; disk = disk }, inodes-IsFine)

abbrev no_devices : Backend (Fs sb)
no_devices = record {
  piperead = λ p a n w. (negsuc 0, w);
  pipewrite = λ p a n w. (negsuc 0, w);
  device_read = λ m. none;
  device_write = λ m. none;
  readi = λ i a o n w. (pos 0, w);
  writei = λ i a o n w. (pos 0, w);
  ilock = λ i w. w;
  iunlock = λ i w. w;
  begin_op = λ w. w;
  end_op = λ w. w;
}

abbrev file : File
file = record {
  type = fd_inode;
  ref = 1;
  readable = true;
  writable = true;
  pipe = 0;
  ip = some 3;
  off = 0;
  major = pos 0;
}

filewrite-writei_example :
    Stored (over_fs sb memory memory-Bytes no_devices) memory (bytes sb) 500 5000 3 file state
    × Agrees sb memory memory-Bytes (over_fs sb memory memory-Bytes no_devices)
    × ((i off : ℕ)
        → i < 5000
        → 2 * span sb memory memory-Bytes off (chunk_size 5000 i) + 2 ≤ max_op_blocks)
filewrite-writei_example =
    filewrite-writei sb memory memory-Bytes no_devices 500 5000 3 file state refl refl refl
      (omega arith) (omega arith)

itrunc-Truncated_example :
    (ip : Inode) × (d' : Disk) × Truncated sb inodes disk inodes-IsSound 3 ip d'
itrunc-Truncated_example = itrunc-Truncated sb inodes disk inodes-IsSound 3 (omega arith)
