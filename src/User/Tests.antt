-- ===== src/User/Tests.antt =====
-- The theorem at -42, which stands in memory at address 100.
use xv6_tp.Base.{
  ℕ, ◌-◌, ◌≡◌, ◌≢◌, ◌≤◌, ◌<◌, ◌^◌, true, false, ◌==◌, if◌then◌else◌, List, [], ◌∷◌, length, arith,
  refl,
}
use xv6_tp.Base.Run.{done}
use xv6_tp.Kernel.Str.{Memory}
use xv6_tp.User.{atoi, atoi_loop, printint, digit_loop, push, emit, magnitude, is_negative}
use xv6_tp.User.Digits.{all_digits, first}
use xv6_tp.User.Numbers.{holds_text, signed, atoi-printint}

abbrev minus_42 : ℕ
minus_42 = 2 ^ 32 - 42

abbrev memory : Memory
memory a = if a == 100 then 52 else if a == 101 then 50 else 0

prints_42 : printint minus_42 10 true ≡ done (45 ∷ 52 ∷ 50 ∷ [])
unfolding printint digit_loop push emit
prints_42 = refl

-- 255 in base 16 is `FF`.
prints_hex : printint 255 16 false ≡ done (70 ∷ 70 ∷ [])
unfolding printint digit_loop push emit
prints_hex = refl

reads_42 : atoi 100 10 memory ≡ done 42
unfolding atoi atoi_loop
reads_42 = refl

atoi-printint_example :
    (cs : List ℕ) × (printint minus_42 10 true ≡ done (signed (is_negative minus_42 true) cs))
    × (length cs ≤ 10)
    × (all_digits cs ≡ true)
    × (48 ≤ first cs)
    × (magnitude minus_42 true ≢ 0 → 48 < first cs)
    × ((s : ℕ) (m : Memory)
        → holds_text m s cs ≡ true
        → atoi s 10 m ≡ done (magnitude minus_42 true))
atoi-printint_example = atoi-printint minus_42 true (omega arith)
