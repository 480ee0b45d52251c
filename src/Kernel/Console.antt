-- ===== src/Kernel/Console.antt =====
-- kernel/console.c: the input buffer, which `consoleintr` edits and `consoleread` takes bytes from.
--
-- The echo to the UART is a list of characters, where 256 is `BACKSPACE`. A turn of `consoleread` ends
-- when it returns or sleeps. `dst i` says whether the copy of the byte to `dst + i` succeeds.
pub mod Ring
pub mod Screen
pub mod Erases
pub mod Types
pub mod Keys
pub mod Reads
mod Tests
use xv6_tp.Base.{
  ℕ, zero, suc, ◌+◌, ◌-◌, ◌%◌, ◌^◌, Bool, true, false, not, ◌&&◌, ◌||◌, List, [], ◌∷◌, ◌++◌, ◌==◌,
  ltb, if◌then◌else◌, update, ℤ, pos, negsuc,
}
use xv6_tp.Base.Run.{Run, done, out_of_fuel, ◌>>=◌}

abbrev pub input_buf_size : ℕ
input_buf_size = 128

abbrev pub backspace : ℕ
backspace = 256

-- `C(x)`, control and a letter
abbrev pub control : ℕ → ℕ
control x = x - 64

-- `cons`, less its spinlock. The indexes are 32-bit counters.
pub record Cons : Type 0 where
  pub buf : ℕ → ℕ
  pub r : ℕ
  pub w : ℕ
  pub e : ℕ

-- The characters echoed, and whether the readers are woken.
pub record Reply : Type 0 where
  pub cons : Cons
  pub echo : List ℕ
  pub wakes : Bool

abbrev pub quiet : Cons → Run Reply
quiet c = done (record { cons = c; echo = []; wakes = false })

-- `cons.e--`
abbrev pub erase : Cons → Cons
erase c = record c { e = (c.e + (2 ^ 32 - 1)) % 2 ^ 32 }

abbrev pub before_edit : Cons → ℕ
before_edit c = c.buf ((c.e + (2 ^ 32 - 1)) % 2 ^ 32 % input_buf_size)

abbrev pub and_erased : Reply → Run Reply
and_erased x = done (record x { echo = backspace ∷ x.echo })

-- The loop that kills the line.
pub kill_line : ℕ → Cons → Run Reply
kill_line zero c = out_of_fuel
kill_line (suc fuel) c =
    let rest = kill_line fuel (erase c) >>= and_erased in
    if not (c.e == c.w) && not (before_edit c == 10) then rest else quiet c

abbrev pub delete_key : Cons → Run Reply
delete_key c =
    if c.e == c.w
    then quiet c
    else done (record { cons = erase c; echo = backspace ∷ []; wakes = false })

-- `cons.e - cons.r`
abbrev pub held : Cons → ℕ
held c = (c.e + 2 ^ 32 - c.r) % 2 ^ 32

abbrev pub stored : ℕ → Cons → Cons
stored ch c = record c { buf = update c.buf (c.e % input_buf_size) ch; e = (c.e + 1) % 2 ^ 32 }

-- A character that is not a command, once a carriage return is a newline.
abbrev pub type_key : ℕ → Cons → Run Reply
type_key ch c =
    let c' = stored ch c in
    if ch == 10 || ch == control 68 || held c' == input_buf_size
    then done (record { cons = record c' { w = c'.e }; echo = ch ∷ []; wakes = true })
    else done (record { cons = c'; echo = ch ∷ []; wakes = false })

abbrev pub newline : ℕ → ℕ
newline ch = if ch == 13 then 10 else ch

pub consoleintr : ℕ → Cons → Run Reply
consoleintr ch c =
    if ch == control 80
    then quiet c
    else if ch == control 85
    then kill_line (input_buf_size + 1) c
    else if ch == control 72 || ch == 127
    then delete_key c
    else if not (ch == 0) && ltb (held c) input_buf_size
    then type_key (newline ch) c
    else quiet c

-- A turn of `consoleread` returns, with the bytes that it copied out, or sleeps with `n` left.
pub data ReadTurn : Type 0 where
  returns : ℤ → List ℕ → Cons → ReadTurn
  sleeps : (n : ℕ) → List ℕ → Cons → ReadTurn

abbrev pub with_byte : ℕ → ReadTurn → ReadTurn
with_byte ch (returns x l c) = returns x (ch ∷ l) c
with_byte ch (sleeps n l c) = sleeps n (ch ∷ l) c

-- With `n` bytes to go of `target`.
unfoldable pub consoleread : (killed : Bool) (dst : ℕ → Bool) (target n : ℕ) → Cons → ReadTurn
consoleread killed dst target zero c = returns (pos target) [] c
consoleread killed dst target (suc n) c =
    let ch = c.buf (c.r % input_buf_size) in
    let c' = record c { r = (c.r + 1) % 2 ^ 32 } in
    let rest = consoleread killed dst target n c' in
    if c.r == c.w
    then (if killed then returns (negsuc 0) [] c else sleeps (suc n) [] c)
    else if ch == control 68
    then (if ltb (suc n) target
        then returns (pos (target - suc n)) [] c
        else returns (pos (target - suc n)) [] c')
    else if not (dst (target - suc n))
    then returns (pos (target - suc n)) [] c'
    else if ch == 10
    then returns (pos (target - n)) (ch ∷ []) c'
    else with_byte ch rest
