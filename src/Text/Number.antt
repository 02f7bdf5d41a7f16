-- ===== src/Text/Number.antt =====
-- strconv.Atoi on a 64-bit machine, and %d of its numbers.
use mqtt_home_automation.Base.{
  ℕ, suc, ◌+◌, ◌-◌, ◌*◌, ◌^◌, ◌||◌, [], ◌∷◌, Option, none, some, ltb, leb, ◌==◌, if◌then◌else◌,
}
use mqtt_home_automation.Base.Int.{ℤ, pos, negsuc, negate}
use mqtt_home_automation.Text.{Bytes, itoa}

-- The number that digits spell behind `n`; none if a byte is no digit.
read_digits : ℕ → Bytes → Option ℕ
read_digits n [] = some n
read_digits n (c ∷ s) =
    let rest = read_digits (n * 10 + (c - b'0')) s in
    if ltb c b'0' || ltb b'9' c then none else rest

read_number : Bytes → Option ℕ
unfolding read_digits
read_number [] = none
read_number (c ∷ s) = read_digits 0 (c ∷ s)

not_above : ℕ → Option ℕ → Option ℕ
not_above limit none = none
not_above limit (some n) = if leb n limit then some n else none

signed : (ℕ → ℤ) → Option ℕ → Option ℤ
signed sign none = none
signed sign (some n) = some (sign n)

unfoldable pub atoi : Bytes → Option ℤ
unfolding read_number signed not_above
atoi [] = none
atoi (c ∷ s) =
    if c == b'-'
    then signed negate (not_above (2 ^ 63) (read_number s))
    else if c == b'+'
    then signed pos (not_above (2 ^ 63 - 1) (read_number s))
    else signed pos (not_above (2 ^ 63 - 1) (read_number (c ∷ s)))

-- %d
unfoldable pub print_int : ℤ → Bytes
unfolding itoa
print_int (pos n) = itoa n
print_int (negsuc n) = b'-' ∷ itoa (suc n)
