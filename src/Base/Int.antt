-- ===== src/Base/Int.antt =====
-- Go's `int` where its sign matters, as an integer over the native numbers.
use mathlib.Core.Bool.{Bool, true, false}
use Prim.Native.Nat.{ℕ, zero, suc, ◌+◌, ◌-◌, ◌*◌, ◌/◌, ◌%◌, ◌^◌}
use mqtt_home_automation.Base.Tests.{ltb, if◌then◌else◌}

-- `negsuc n` is -(n + 1).
pub data ℤ : Type 0 where
  pos : ℕ → ℤ
  negsuc : ℕ → ℤ

-- i > 0 as a count: what is left of a bound that is not positive is 0.
abbrev pub to_ℕ : ℤ → ℕ
to_ℕ (pos n) = n
to_ℕ (negsuc n) = 0

abbrev pub is_positive : ℤ → Bool
is_positive (pos (ℕ.zero)) = false
is_positive (pos (suc n)) = true
is_positive (negsuc n) = false

abbrev pub is_zero : ℤ → Bool
is_zero (pos (ℕ.zero)) = true
is_zero (pos (suc n)) = false
is_zero (negsuc n) = false

-- -n
abbrev pub negate : ℕ → ℤ
negate zero = pos 0
negate (suc n) = negsuc n

-- An integer as a word of 64 bits, in two's complement, and back.
abbrev pub word_of : ℤ → ℕ
word_of (pos n) = n % 2 ^ 64
word_of (negsuc n) = 2 ^ 64 - 1 - n % 2 ^ 64

abbrev pub of_word : ℕ → ℤ
of_word w = if ltb w (2 ^ 63) then pos w else negsuc (2 ^ 64 - 1 - w)

-- a - b on 64 bits
abbrev pub minus : ℤ → ℤ → ℤ
minus a b = of_word ((word_of a + (2 ^ 64 - word_of b)) % 2 ^ 64)

-- a / d for a positive d: the quotient is cut towards zero.
abbrev pub quotient : ℤ → ℕ → ℤ
quotient (pos n) d = pos (n / d)
quotient (negsuc n) d = negate (suc n / d)

-- a * b on 64 bits
abbrev pub times : ℤ → ℤ → ℤ
times a b = of_word ((word_of a * word_of b) % 2 ^ 64)
