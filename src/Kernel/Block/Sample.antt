-- ===== src/Kernel/Block/Sample.antt =====
-- A disk of 100 blocks, of which the first 13 are in use, for the tests.
use xv6_tp.Base.{
  ℕ, zero, suc, ◌<◌, ◌≡◌, Bool, false, true, not, [], if◌then◌else◌, ◌==◌, arith, refl,
}
use xv6_tp.Kernel.Block.{Superblock, Disk}
use xv6_tp.Kernel.Block.Bits.{holds_below, at_below}
use xv6_tp.Kernel.Block.Scan.{unused}
use xv6_tp.Kernel.Block.Alloc.{IsVolume}

abbrev pub sb : Superblock
sb = record {
  magic = 0x1020_3040;
  size = 100;
  nblocks = 87;
  ninodes = 8;
  nlog = 2;
  logstart = 2;
  inodestart = 4;
  bmapstart = 12;
}

abbrev pub bitmap : ℕ → ℕ
bitmap zero = 255
bitmap (suc zero) = 31
bitmap (suc (suc i)) = 0

abbrev pub disk : Disk
disk = record { bytes = λ b i. if b == 12 then bitmap i else 0; logged = [] }

reserved_table : holds_below (λ b. not (unused sb disk b)) 13 ≡ true
unfolding holds_below
reserved_table = refl

bitmap-byte : (i : ℕ) → bitmap i < 256
bitmap-byte zero = omega arith
bitmap-byte (suc zero) = omega arith
bitmap-byte (suc (suc i)) = omega arith

not-true : (b : Bool) → not b ≡ true → b ≡ false
not-true true e = absurd (ground arith)
not-true false e = refl

pub disk-IsVolume : IsVolume sb disk
disk-IsVolume = record {
  bytes = λ b i. ground (arith, bitmap-byte i);
  reserved = λ b lt.
      not-true (unused sb disk b) (at_below (λ b. not (unused sb disk b)) reserved_table lt);
  small = omega arith;
}
