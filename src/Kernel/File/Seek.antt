-- ===== src/Kernel/File/Seek.antt =====
-- `sys_lseek` against the offset computed in integers.
use xv6_tp.Base.{
  ℕ, ◌+◌, ◌-◌, ◌^◌, ◌≡◌, ◌≤◌, ◌<◌, Option, none, some, Bool-cases, inl, inr, ◌==◌, leb,
  if◌then◌else◌, arith, ap, ◌∙◌, ℤ, pos, negsuc, neg_part, pos_part, ◌+ℤ◌,
}
use xv6_tp.Base.Run.{done}
use xv6_tp.Kernel.File.{Files}
use xv6_tp.Kernel.File.Descriptors.{argfd}
use xv6_tp.Kernel.File.Transfer.{Inode, seek_set, seek_cur, seek_end, seek_to, seek_file, sys_lseek}

-- An offset from 0 to the size of the file.
abbrev pub in_file : ℕ → ℤ → Option ℕ
in_file size (negsuc k) = none
in_file size (pos k) = if leb k size then some k else none

-- Where an offset counts from.
abbrev pub base_of : (size off whence : ℕ) → ℕ
base_of size off whence = if whence == seek_set then 0 else if whence == seek_cur then off else size

-- An `int`.
abbrev pub FitsInt : ℤ → Type 0
FitsInt offset = (pos_part offset < 2 ^ 31) × (neg_part offset ≤ 2 ^ 31)

seek_set-in_file :
    (size off : ℕ) (offset : ℤ) → seek_to size off offset 0 ≡ in_file size (pos 0 +ℤ offset)
unfolding ◌+ℤ◌
seek_set-in_file size off (pos k) = ground arith
seek_set-in_file size off (negsuc k) = ground arith

seek_cur-in_file :
    (size off : ℕ) (offset : ℤ)
    → size < 2 ^ 31
    → off ≤ size
    → FitsInt offset
    → seek_to size off offset 1 ≡ in_file size (pos off +ℤ offset)
unfolding ◌+ℤ◌
seek_cur-in_file size off (pos k) hs ho (hp, hn) = ground arith
seek_cur-in_file size off (negsuc k) hs ho (hp, hn) = ground arith

seek_end-in_file :
    (size off : ℕ) (offset : ℤ)
    → size < 2 ^ 31
    → neg_part offset ≤ size
    → seek_to size off offset 2 ≡ in_file size (pos size +ℤ offset)
unfolding ◌+ℤ◌
seek_end-in_file size off (pos k) hs ho = ground arith
seek_end-in_file size off (negsuc k) hs ho = ground arith

seek_to-in_file :
    (size off : ℕ) (offset : ℤ) (whence : ℕ)
    → size < 2 ^ 31
    → off ≤ size
    → FitsInt offset
    → whence ≤ 2
    → (whence ≡ 2 → neg_part offset ≤ size)
    → seek_to size off offset whence ≡ in_file size (pos (base_of size off whence) +ℤ offset)
seek_to-in_file size off offset whence hs ho hi hw he = elim (Bool-cases (whence == 0)) [
  | inl set ↦ let e : whence ≡ 0 = ground arith in rw e (seek_set-in_file size off offset)
  | inr not_set ↦ elim (Bool-cases (whence == 1)) [
    | inl cur ↦
        let e : whence ≡ 1 = ground arith in rw e (seek_cur-in_file size off offset hs ho hi)
    | inr not_cur ↦
        let e : whence ≡ 2 = ground arith in rw e (seek_end-in_file size off offset hs (he e))
  ]
]

sys_lseek-seek_to :
    (inode : ℕ → Inode) (me : ℕ) (fd offset : ℤ) (whence : ℕ) (s : Files) (d f ip : ℕ)
    → argfd me fd s ≡ some (d, f)
    → (s.file f).ip ≡ some ip
    → sys_lseek inode me fd offset whence s
      ≡ done (seek_file f s (seek_to (inode ip).size (s.file f).off offset whence))
unfolding sys_lseek
sys_lseek-seek_to inode me fd offset whence s d f ip e q = simp (sys_lseek, e, q)

-- On a file of an inode whose offset is within its size, `sys_lseek` moves the offset to
-- the start, the offset or the size, as `whence` says, plus the argument, in integers, if that is
-- from 0 to the size, and else answers -1 and changes nothing. The size is below 2^31; with
-- `SEEK_END` the argument must not go back beyond the start of the file.
pub sys_lseek-in_file :
    (inode : ℕ → Inode) (me : ℕ) (fd offset : ℤ) (whence : ℕ) (s : Files) (d f ip : ℕ)
    → argfd me fd s ≡ some (d, f)
    → (s.file f).ip ≡ some ip
    → (inode ip).size < 2 ^ 31
    → (s.file f).off ≤ (inode ip).size
    → FitsInt offset
    → whence ≤ 2
    → (whence ≡ 2 → neg_part offset ≤ (inode ip).size)
    → sys_lseek inode me fd offset whence s
      ≡ done (
          seek_file f s (
            in_file
              (inode ip).size
              (pos (base_of (inode ip).size (s.file f).off whence) +ℤ offset)))
sys_lseek-in_file inode me fd offset whence s d f ip e q hs ho hi hw he =
    sys_lseek-seek_to inode me fd offset whence s d f ip e q
    ∙ ap (λ (o : Option ℕ). done (seek_file f s o))
        (seek_to-in_file (inode ip).size (s.file f).off offset whence hs ho hi hw he)

-- With `SEEK_END`, an argument that goes back beyond the start of the file is not refused: the
-- offset becomes 2^32 plus the negative number, which is above the size.
pub seek_end-wraps :
    (inode : ℕ → Inode) (me : ℕ) (fd : ℤ) (k : ℕ) (s : Files) (d f ip : ℕ)
    → argfd me fd s ≡ some (d, f)
    → (s.file f).ip ≡ some ip
    → (inode ip).size < k + 1
    → k < 2 ^ 31
    → (sys_lseek inode me fd (negsuc k) seek_end s
        ≡ done (seek_file f s (some (2 ^ 32 + (inode ip).size - (k + 1)))))
      × ((inode ip).size < 2 ^ 32 + (inode ip).size - (k + 1))
seek_end-wraps inode me fd k s d f ip e q hs hk =
    let wraps : seek_to (inode ip).size (s.file f).off (negsuc k) seek_end
        ≡ some (2 ^ 32 + (inode ip).size - (k + 1)) =
      ap some (omega arith) in
    (
      sys_lseek-seek_to inode me fd (negsuc k) seek_end s d f ip e q
          ∙ ap (λ (o : Option ℕ). done (seek_file f s o)) wraps,
      omega arith,
    )
