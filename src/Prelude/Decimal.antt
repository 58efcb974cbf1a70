-- ===== src/Prelude/Decimal.antt =====
-- `Display` of the unsigned integers: decimal digits.
use Prim.Native.String.{◌++◌ as text_append}
use omnisec.Prelude.{
  ℕ, zero, suc, ◌/◌, ◌%◌, ◌^◌, ◌<◌, String, ◌≡◌, refl, inl, inr, arith, true, false, ltb, ◌==◌,
  if◌then◌else◌, Bool-cases,
}

unfoldable pub digit : ℕ → String
digit d =
    if d == 0
    then "0"
    else if d == 1
    then "1"
    else if d == 2
    then "2"
    else if d == 3
    then "3"
    else if d == 4
    then "4"
    else if d == 5
    then "5"
    else if d == 6
    then "6"
    else if d == 7
    then "7"
    else if d == 8
    then "8"
    else "9"

-- The digits before the text `rest`. The fuel bounds their number: 20 for 64 bits.
unfoldable pub decimal_from : ℕ → ℕ → String → String
unfolding digit
decimal_from zero n rest = rest
decimal_from (suc fuel) n rest = elim (ltb n 10) [
  | true ↦ text_append (digit n) rest
  | false ↦ decimal_from fuel (n / 10) (text_append (digit (n % 10)) rest)
]

unfoldable pub decimal : ℕ → String
unfolding decimal_from
decimal n = decimal_from 20 n ""

decimal_example : decimal 4294967295 ≡ "4294967295"
unfolding decimal
decimal_example = refl

shorter : (fuel n : ℕ) → n < 10 ^ suc (suc fuel) → n / 10 < 10 ^ suc fuel
shorter fuel n h = omega (arith, h)

-- One more unit of fuel changes nothing where the number has as many digits as there is fuel.
decimal_from_enough :
    (fuel n : ℕ) (rest : String)
    → n < 10 ^ suc fuel
    → decimal_from (suc (suc fuel)) n rest ≡ decimal_from (suc fuel) n rest
unfolding decimal_from
decimal_from_enough zero n rest h =
    let one : ltb n 10 ≡ true = ground (arith, h) in rw (one, decimal_from) refl
decimal_from_enough (suc fuel) n rest h = elim (Bool-cases (ltb n 10)) [
  | inl m ↦ rw (m, decimal_from) refl
  | inr m ↦
      rw (m, decimal_from)
        (decimal_from_enough fuel (n / 10) (text_append (digit (n % 10)) rest) (shorter fuel n h))
]
