-- ===== src/Kernel/Itable/Tests.antt =====
-- The theorems at a table with one inode in it, which has no links.
use xv6_tp.Base.{ℕ, ◌<◌, ◌≡◌, ◌≢◌, ◌⊎◌, false, true, if◌then◌else◌, ◌==◌, arith}
use xv6_tp.Base.Run.{done, panics}
use xv6_tp.Kernel.Block.Sample.{sb, disk, disk-IsVolume}
use xv6_tp.Kernel.Inode.{World, Inode}
use xv6_tp.Kernel.Inode.Slots.{slot, live, IsSound}
use xv6_tp.Kernel.Itable.{ninode, iget}
use xv6_tp.Kernel.Itable.Count.{IsTable, count}
use xv6_tp.Kernel.Itable.Get.{Got, iget-Got}
use xv6_tp.Kernel.Itable.Put.{Dropped, iput-Dropped}

abbrev unused_slot : Inode
unused_slot = record {
  dev = 0;
  inum = 0;
  ref = 0;
  locked = false;
  valid = false;
  type = 0;
  major = 0;
  minor = 0;
  nlink = 0;
  size = 0;
  addrs = λ i. 0;
  mode = 0;
}

abbrev open_slot : Inode
open_slot = record unused_slot { dev = 1; inum = 5; ref = 1; valid = true; type = 2; mode = 6 }

abbrev world : World
world = record { inode = λ i. if i == 3 then open_slot else unused_slot; disk = disk }

world-IsTable : IsTable world.inode
world-IsTable i j lt lt' r r' d n = ground (arith, r, r')

live-addrs : (i k : ℕ) → (live world.inode i).addrs k ≡ 0
live-addrs i k = ground arith

no_slots : (i k : ℕ) → slot (live world.inode i) disk k ≡ 0
no_slots i k = slot_zero (live world.inode i) k (live-addrs i)
  where
    slot_zero : (ip : Inode) (k : ℕ) → ((k : ℕ) → ip.addrs k ≡ 0) → slot ip disk k ≡ 0
    slot_zero ip k z = let a = z k in let b = z 12 in ground arith

world-IsSound : IsSound sb (live world.inode) disk
world-IsSound = record {
  volume = disk-IsVolume;
  laid_out = record { inodes = omega arith; fits = omega arith };
  owns = λ i k nz. absurd (nz (no_slots i k));
  apart = λ i j k l nz e. absurd (nz (no_slots i k));
}

iget-Got_example :
    ((i : ℕ) × (w' : World) × (iget 1 5 world ≡ done (i, w')) × Got 1 5 world i w')
    ⊎ ((iget 1 5 world ≡ panics)
        × (count world.inode 1 5 ≡ 0)
        × ((j : ℕ) → j < ninode → (world.inode j).ref ≢ 0))
iget-Got_example = iget-Got 1 5 world world-IsTable

iput-Dropped_example : (w' : World) × Dropped sb world 3 w'
iput-Dropped_example =
    iput-Dropped sb world 3 world-IsTable (omega arith) (λ e. omega arith) world-IsSound
      (omega arith)
