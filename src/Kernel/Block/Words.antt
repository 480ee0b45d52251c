-- ===== src/Kernel/Block/Words.antt =====
-- Words of four bytes in a block.
use xv6_tp.Base.{ℕ, ◌+◌, ◌*◌, ◌/◌, ◌%◌, ◌^◌, ◌<◌, ◌≡◌, ◌≢◌, ◌==◌, true, if◌then◌else◌, arith, refl}
use xv6_tp.Kernel.Block.{word_at}

-- Byte `r` of a word.
abbrev pub byte_of : ℕ → ℕ → ℕ
byte_of v r =
    if r == 0
    then v % 256
    else if r == 1
    then v / 256 % 256
    else if r == 2
    then v / 65536 % 256
    else v / 16777216 % 256

-- `a[i] = v` in a block of words.
abbrev pub put_word : (ℕ → ℕ) → ℕ → ℕ → ℕ → ℕ
put_word block i v j = if j / 4 == i then byte_of v (j % 4) else block j

pub ==_self : (n : ℕ) → (n == n) ≡ true
==_self n = ground arith

put_word_at :
    (block : ℕ → ℕ) (i v r a : ℕ) → a ≡ 4 * i + r → r < 4 → put_word block i v a ≡ byte_of v r
put_word_at block i v r a e h =
    let here : a / 4 ≡ i = omega arith in
    let low : a % 4 ≡ r = omega arith in rw (here, low, ==_self i) refl

pub word_at-put_self : (block : ℕ → ℕ) (i v : ℕ) → v < 2 ^ 32 → word_at (put_word block i v) i ≡ v
word_at-put_self block i v h =
    let b0 = put_word_at block i v 0 (4 * i) (omega arith) (omega arith) in
    let b1 = put_word_at block i v 1 (4 * i + 1) refl (omega arith) in
    let b2 = put_word_at block i v 2 (4 * i + 2) refl (omega arith) in
    let b3 = put_word_at block i v 3 (4 * i + 3) refl (omega arith) in
    rw (b0, b1, b2, b3) (omega arith)

pub word_at-put_ne :
    (block : ℕ → ℕ) (i j v : ℕ) → i ≢ j → word_at (put_word block i v) j ≡ word_at block j
word_at-put_ne block i j v h = ground arith

pub put_word_byte :
    (block : ℕ → ℕ) (i v : ℕ) → ((j : ℕ) → block j < 256) → (j : ℕ) → put_word block i v j < 256
put_word_byte block i v h j = ground (arith, h j)
