-- ===== src/Kernel/Str.antt =====
-- kernel/string.c, over memory as a map of bytes. A count is what is left of the loop.
pub mod Moves
pub mod Compares
pub mod Copies
mod Tests
use xv6_tp.Base.{
  ℕ, zero, suc, ◌+◌, Bool, true, false, not, ◌&&◌, ◌||◌, ◌==◌, ltb, if◌then◌else◌, ℤ, pos, negsuc,
  sub_ℕ, update,
}
use xv6_tp.Base.Run.{Run, done, out_of_fuel}

abbrev pub Memory : Type 0
Memory = ℕ → ℕ

pub memset : (dst c : ℕ) → ℕ → Memory → Memory
memset dst c zero m = m
memset dst c (suc n) m = memset (dst + 1) c n (update m dst c)

pub memcmp : (v1 v2 : ℕ) → ℕ → Memory → ℤ
memcmp v1 v2 zero m = pos 0
memcmp v1 v2 (suc n) m =
    let rest = memcmp (v1 + 1) (v2 + 1) n m in
    if not (m v1 == m v2) then sub_ℕ (m v1) (m v2) else rest

-- `*d++ = *s++`
pub copy_up : (d s : ℕ) → ℕ → Memory → Memory
copy_up d s zero m = m
copy_up d s (suc n) m = copy_up (d + 1) (s + 1) n (update m d (m s))

-- `*--d = *--s`, from the ends of both ranges
pub copy_down : (d s : ℕ) → ℕ → Memory → Memory
copy_down d s zero m = m
copy_down d s (suc n) m = copy_down d s n (update m (d + n) (m (s + n)))

pub memmove : (dst src n : ℕ) → Memory → Memory
memmove dst src n m =
    if n == 0
    then m
    else if ltb src dst && ltb dst (src + n)
    then copy_down dst src n m
    else copy_up dst src n m

pub memcpy : (dst src n : ℕ) → Memory → Memory
memcpy dst src n m = memmove dst src n m

pub strncmp : (p q : ℕ) → ℕ → Memory → ℤ
strncmp p q zero m = pos 0
strncmp p q (suc n) m =
    let rest = strncmp (p + 1) (q + 1) n m in
    if not (m p == 0) && m p == m q then rest else sub_ℕ (m p) (m q)

-- The second loop of `strncpy`, and its first.
pub pad : (s : ℕ) → ℕ → Memory → Memory
pad s zero m = m
pad s (suc n) m = pad (s + 1) n (update m s 0)

pub strncpy_loop : (s t : ℕ) → ℕ → Memory → Memory
strncpy_loop s t zero m = m
strncpy_loop s t (suc n) m =
    let m' = update m s (m t) in
    let rest = strncpy_loop (s + 1) (t + 1) n m' in
    let padded = pad (s + 1) n m' in if m t == 0 then padded else rest

pub strncpy : (s t : ℕ) → ℤ → Memory → Memory
strncpy s t (negsuc k) m = m
strncpy s t (pos n) m = strncpy_loop s t n m

-- The loop of `safestrcpy`, with room for `n` bytes and the final 0.
pub safestrcpy_loop : (s t : ℕ) → ℕ → Memory → Memory
safestrcpy_loop s t zero m = update m s 0
safestrcpy_loop s t (suc n) m =
    let m' = update m s (m t) in
    let rest = safestrcpy_loop (s + 1) (t + 1) n m' in
    if m t == 0 then update m' (s + 1) 0 else rest

pub safestrcpy : (s t : ℕ) → ℤ → Memory → Memory
safestrcpy s t (negsuc k) m = m
safestrcpy s t (pos zero) m = m
safestrcpy s t (pos (suc n)) m = safestrcpy_loop s t n m

-- With `fuel` bytes to look at, from byte `n` on.
pub strlen_loop : (s : ℕ) → (fuel n : ℕ) → Memory → Run ℕ
strlen_loop s zero n m = out_of_fuel
strlen_loop s (suc fuel) n m =
    let rest = strlen_loop s fuel (n + 1) m in if m (s + n) == 0 then done n else rest

pub strlen : (s fuel : ℕ) → Memory → Run ℕ
strlen s fuel m = strlen_loop s fuel 0 m
