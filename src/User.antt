-- ===== src/User.antt =====
-- user/ulib.c and user/printf.c: `atoi`, and `printint`, that writes a number.
--
-- Memory is a map of bytes. What `putc` writes is the list of the bytes, in their order.
pub mod Digits
pub mod Numbers
mod Tests
use xv6_tp.Base.{
  ℕ, zero, suc, ◌+◌, ◌-◌, ◌*◌, ◌/◌, ◌%◌, ◌^◌, Bool, true, false, ◌&&◌, ◌==◌, ltb, leb,
  if◌then◌else◌, List, [], ◌∷◌, update,
}
use xv6_tp.Base.Run.{Run, done, panics, out_of_fuel, ◌>>=◌}
use xv6_tp.Kernel.Str.{Memory}

abbrev pub is_digit : ℕ → Bool
is_digit c = leb 48 c && leb c 57

-- An `int` is its 32 bits.
unfoldable pub atoi_loop : (s fuel n : ℕ) → Memory → Run ℕ
atoi_loop s zero n m = if is_digit (m s) then out_of_fuel else done n
atoi_loop s (suc fuel) n m =
    let rest = atoi_loop (s + 1) fuel ((n * 10 + m s - 48) % 2 ^ 32) m in
    if is_digit (m s) then rest else done n

unfoldable pub atoi : (s fuel : ℕ) → Memory → Run ℕ
atoi s fuel m = atoi_loop s fuel 0 m

-- `buf` and `i` of `printint`.
pub record Buffer : Type 0 where
  pub buf : ℕ → ℕ
  pub i : ℕ

abbrev pub buf_size : ℕ
buf_size = 16

-- `buf[i++] = c`. A store behind the end of the buffer is a panic.
unfoldable pub push : ℕ → Buffer → Run Buffer
push c b =
    if ltb b.i buf_size then done (record { buf = update b.buf b.i c; i = b.i + 1 }) else panics

-- `digits[d]`
abbrev pub digit : ℕ → ℕ
digit d = if ltb d 10 then 48 + d else 55 + d

unfoldable pub digit_loop : (base fuel x : ℕ) → Buffer → Run Buffer
digit_loop base zero x b = out_of_fuel
digit_loop base (suc fuel) x b = push (digit (x % base)) b >>= (λ b'.
    let rest = digit_loop base fuel (x / base) b' in if x / base == 0 then done b' else rest)

-- The bytes that `while(--i >= 0) putc(fd, buf[i])` writes.
unfoldable pub emit : ℕ → (ℕ → ℕ) → List ℕ
emit zero buf = []
emit (suc i) buf = buf i ∷ emit i buf

abbrev pub is_negative : (xx : ℕ) → (sgn : Bool) → Bool
is_negative xx sgn = sgn && leb (2 ^ 31) xx

-- The number without its sign.
abbrev pub magnitude : (xx : ℕ) → (sgn : Bool) → ℕ
magnitude xx sgn = if is_negative xx sgn then 2 ^ 32 - xx else xx

-- Each round of the loop divides by at least 2.
unfoldable pub printint : (xx base : ℕ) → (sgn : Bool) → Run (List ℕ)
printint xx base sgn =
    digit_loop base 32 (magnitude xx sgn) (record { buf = λ j. 0; i = 0 })
    >>= (λ b. if is_negative xx sgn then push 45 b else done b)
    >>= (λ b. done (emit b.i b.buf))
