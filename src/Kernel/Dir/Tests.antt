-- ===== src/Kernel/Dir/Tests.antt =====
-- The theorems at a directory with the entries `.`, `..` and `a`; each slot not in use still has the
-- address of a block that is now the directory's.
use xv6_tp.Base.{
  ℕ, ◌/◌, ◌≤◌, ◌<◌, ◌≡◌, ◌⊎◌, ◌↔◌, inl, inr, Bool, false, true, not, Bool-cases, ◌||◌, [],
  if◌then◌else◌, ◌==◌, arith, refl, sym, ◌∙◌, ap,
}
use xv6_tp.Base.Run.{done}
use xv6_tp.Kernel.Str.{Memory}
use xv6_tp.Kernel.Block.{Disk}
use xv6_tp.Kernel.Block.Scan.{unused}
use xv6_tp.Kernel.Block.Bits.{holds_below, at_below}
use xv6_tp.Kernel.Block.Alloc.{IsVolume}
use xv6_tp.Kernel.Block.Sample.{sb}
use xv6_tp.Kernel.Inode.{Inode}
use xv6_tp.Kernel.Inode.Slots.{slot, live, IsSound}
use xv6_tp.Kernel.Itable.Count.{IsTable}
use xv6_tp.Kernel.Dir.{dirlookup, isdirempty, is_used}
use xv6_tp.Kernel.Dir.Answers.{IsDir, Answered, entry, isdirempty-is_used, dirlookup-Answered}

abbrev no_inode : Inode
no_inode = record {
  dev = 0;
  inum = 0;
  ref = 0;
  locked = false;
  valid = false;
  type = 0;
  major = 0;
  minor = 0;
  nlink = 0;
  size = 0;
  addrs = λ k. if k == 0 then 13 else 0;
  mode = 0;
}

abbrev dir_inode : Inode
dir_inode = record no_inode {
  dev = 1;
  inum = 1;
  ref = 1;
  valid = true;
  type = 1;
  size = 48;
  addrs = λ k. if k == 0 then 13 else 0;
}

abbrev inodes : ℕ → Inode
inodes i = if i == 7 then dir_inode else no_inode

-- The first 14 blocks are in use.
abbrev bitmap : ℕ → ℕ
bitmap i = if i == 0 then 255 else if i == 1 then 63 else 0

abbrev content : ℕ → ℕ
content o =
    if (o == 0) || (o == 16)
    then 1
    else if (o == 2) || (o == 18) || (o == 19)
    then 46
    else if o == 32
    then 5
    else if o == 34
    then 97
    else 0

abbrev disk : Disk
disk = record {
  bytes = λ b i. if b == 12 then bitmap i else if b == 13 then content i else 0;
  logged = [];
}

used_table : holds_below (λ b. not (unused sb disk b)) 14 ≡ true
unfolding holds_below
used_table = refl

not-false : (b : Bool) → not b ≡ true → b ≡ false
not-false true e = absurd (ground arith)
not-false false e = refl

used : (b : ℕ) → b < 14 → unused sb disk b ≡ false
used b lt = not-false (unused sb disk b) (at_below (λ b. not (unused sb disk b)) used_table lt)

disk-IsVolume : IsVolume sb disk
disk-IsVolume = record {
  bytes = λ b i. ground arith;
  reserved = λ b lt. used b (omega arith);
  small = omega arith;
}

slot-cases :
    (i k : ℕ)
    → (slot (live inodes i) disk k ≡ 0) ⊎ ((i ≡ 7) × (k ≡ 0) × (slot (live inodes i) disk k ≡ 13))
slot-cases i k = elim (Bool-cases (i == 7)) [
  | inl e ↦ elim (Bool-cases (k == 0)) [
    | inl first ↦ inr (ground arith, ground arith, ground arith)
    | inr later ↦ inl (ground arith)
  ]
  | inr e ↦ inl (ground arith)
]

inodes-IsSound : IsSound sb (live inodes) disk
inodes-IsSound = record {
  volume = disk-IsVolume;
  laid_out = record { inodes = omega arith; fits = omega arith };
  owns = λ i k nz. elim (slot-cases i k) [
    | inl z ↦ absurd (nz z)
    | inr (p, q, at) ↦
        rw at (record { above = omega arith; below = omega arith; used = used 13 (omega arith) })
  ];
  apart = λ i j k l nz e. elim (slot-cases i k) [
    | inl z ↦ absurd (nz z)
    | inr (p, q, at) ↦ elim (slot-cases j l) [
      | inl z ↦ absurd (nz (e ∙ z))
      | inr (p', q', at') ↦ (p ∙ sym p', q ∙ sym q')
    ]
  ];
}

dir-IsDir : IsDir (live inodes 7) disk sb
dir-IsDir = record {
  there = λ o lo hi z.
      let first : o / 1024 ≡ 0 = omega arith in
      let at : slot (live inodes 7) disk (o / 1024) ≡ 13 = ap (slot (live inodes 7) disk) first in
      omega (arith, at, z);
  small = omega arith;
  whole = refl;
}

inodes-IsTable : IsTable inodes
inodes-IsTable i j lt lt' r r' d n = ground (arith, r, r')

-- The name `a` at address 1000.
abbrev memory : Memory
memory a = if a == 1000 then 97 else 0

isdirempty-is_used_example :
    (b : Bool) × (m' : Memory) × (ip : Inode) × (d' : Disk) × (isdirempty sb 2000 memory dir_inode
        disk
      ≡ done (b, m', ip, d'))
    × ((b ≡ true) ↔ (
        (h : ℕ)
        → 2 ≤ h
        → h < 3
        → is_used 2000 (entry sb inodes disk inodes-IsSound 7 2000 memory dir-IsDir (omega arith) h)
          ≡ false))
isdirempty-is_used_example =
    isdirempty-is_used sb inodes disk inodes-IsSound 7 2000 memory dir-IsDir (omega arith) refl
      (omega arith)

dirlookup-Answered_example :
    Answered sb inodes disk inodes-IsSound 7 2000 memory dir-IsDir
      (omega arith)
      1000
      (dirlookup sb 2000 7 1000 memory (record { inode = inodes; disk = disk }))
dirlookup-Answered_example =
    dirlookup-Answered sb inodes disk inodes-IsSound 7 2000 memory dir-IsDir (omega arith) 1000 refl
      refl inodes-IsTable
