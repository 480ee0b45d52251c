-- ===== src/Kernel/Block/Tests.antt =====
-- The theorems at the sample disk.
use xv6_tp.Base.{ℕ, ◌<◌, ◌≡◌, arith, refl, ap, find_first}
use xv6_tp.Base.Run.{done, panics}
use xv6_tp.Kernel.Block.{Disk, balloc, bfree, find_block}
use xv6_tp.Kernel.Block.Sample.{sb, disk, disk-IsVolume}
use xv6_tp.Kernel.Block.Scan.{unused}
use xv6_tp.Kernel.Block.Alloc.{Taken, balloc-Taken, bfree-balloc}

balloc-Taken_example : Taken sb disk (balloc sb disk)
balloc-Taken_example = balloc-Taken sb disk disk-IsVolume

balloc_run : (balloc sb disk).0 ≡ 13
unfolding balloc find_block find_first
balloc_run = refl

bfree-balloc_example :
    (d'' : Disk) × (bfree sb 13 (balloc sb disk).1 ≡ done d'')
    × ((x : ℕ) → x < 100 → unused sb d'' x ≡ unused sb disk x)
    × (bfree sb 13 d'' ≡ panics)
bfree-balloc_example =
    bfree-balloc sb disk disk-IsVolume 13 (balloc sb disk).1
      (ap (λ b. (b, (balloc sb disk).1)) balloc_run) (λ e. omega arith)
