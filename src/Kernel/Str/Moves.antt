-- ===== src/Kernel/Str/Moves.antt =====
-- `memmove` and `memset`.
use xv6_tp.Base.{
  ℕ, zero, suc, ◌+◌, ◌-◌, ◌≡◌, ◌≤◌, ◌<◌, ◌⊎◌, inl, inr, false, ◌&&◌, ◌==◌, ltb, leb, if◌then◌else◌,
  Bool-cases, arith, ◌∙◌, update,
}
use xv6_tp.Kernel.Str.{Memory, memset, copy_up, copy_down, memmove}

-- The memory whose `n` bytes at `dst` are those that `m` has at `src`.
abbrev pub moved : (dst src n : ℕ) → Memory → Memory
moved dst src n m a = if leb dst a && ltb a (dst + n) then m (src + (a - dst)) else m a

up_step :
    (d s n : ℕ) (m : Memory) (a : ℕ)
    → (d ≤ s) ⊎ (s + suc n ≤ d)
    → moved (d + 1) (s + 1) n (update m d (m s)) a ≡ moved d s (suc n) m a
up_step d s n m a h = elim (Bool-cases (a == d)) [
  | inl first ↦
      let at : a ≡ d = ground arith in
      let from : s + (a - d) ≡ s = omega (arith, at) in ground (arith, from, at)
  | inr not_first ↦ elim (Bool-cases (leb (d + 1) a && ltb a (d + 1 + n))) [
    | inr out ↦ ground arith
    | inl in_range ↦
        let from : s + 1 + (a - (d + 1)) ≡ s + (a - d) = ground arith in
        let other : (d == s + (a - d)) ≡ false = ground (arith, h) in ground (arith, from, other)
  ]
]

down_step :
    (d s n : ℕ) (m : Memory) (a : ℕ)
    → s < d
    → moved d s n (update m (d + n) (m (s + n))) a ≡ moved d s (suc n) m a
down_step d s n m a h = elim (Bool-cases (a == d + n)) [
  | inl last ↦
      let at : a ≡ d + n = ground arith in
      let from : s + (a - d) ≡ s + n = omega (arith, at) in ground (arith, from, at)
  | inr not_last ↦ elim (Bool-cases (leb d a && ltb a (d + n))) [
    | inr out ↦ ground arith
    | inl in_range ↦
        let other : (d + n == s + (a - d)) ≡ false = ground (arith, h) in ground (arith, other)
  ]
]

copy_up-moved :
    (d s n : ℕ) (m : Memory) (a : ℕ) → (d ≤ s) ⊎ (s + n ≤ d) → copy_up d s n m a ≡ moved d s n m a
unfolding copy_up
copy_up-moved d s zero m a h = ground arith
copy_up-moved d s (suc n) m a h =
    let h' : (d + 1 ≤ s + 1) ⊎ (s + 1 + n ≤ d + 1) = elim h [
      | inl lo ↦ inl (omega (arith, lo))
      | inr hi ↦ inr (omega (arith, hi))
    ] in
    copy_up-moved (d + 1) (s + 1) n (update m d (m s)) a h' ∙ up_step d s n m a h

copy_down-moved : (d s n : ℕ) (m : Memory) (a : ℕ) → s < d → copy_down d s n m a ≡ moved d s n m a
unfolding copy_down
copy_down-moved d s zero m a h = ground arith
copy_down-moved d s (suc n) m a h =
    copy_down-moved d s n (update m (d + n) (m (s + n))) a h ∙ down_step d s n m a h

-- `memmove` copies as if through a buffer of its own, however the two ranges overlap, and changes no
-- byte outside the destination.
pub memmove-moved :
    (dst src n : ℕ) (m : Memory) (a : ℕ) → memmove dst src n m a ≡ moved dst src n m a
unfolding memmove
memmove-moved dst src n m a = elim (Bool-cases (n == 0)) [
  | inl none_left ↦ ground arith
  | inr some_left ↦ elim (Bool-cases (ltb src dst && ltb dst (src + n))) [
    | inl down ↦ ground (arith, copy_down-moved dst src n m a (ground arith))
    | inr up ↦
        let apart : (dst ≤ src) ⊎ (src + n ≤ dst) = ground arith in
        ground (arith, copy_up-moved dst src n m a apart)
  ]
]

memset-fills :
    (dst c n : ℕ) (m : Memory) (a : ℕ)
    → memset dst c n m a ≡ (if leb dst a && ltb a (dst + n) then c else m a)
unfolding memset
memset-fills dst c zero m a = ground arith
memset-fills dst c (suc n) m a = ground (arith, memset-fills (dst + 1) c n (update m dst c) a)
