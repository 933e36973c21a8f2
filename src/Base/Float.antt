-- ===== src/Base/Float.antt =====
-- A float64 is its IEEE 754 bit pattern, a number below 2 ^ 64. Only the comparisons are used of it:
-- they order the patterns by sign and magnitude, take the two zeros for one, and are false on NaN.
use ozymandias.Base.Tests.{ltb, if◌then◌else◌}
use ozymandias.Base.Int.{ℤ, pos, sub_ℕ, leb_ℤ, ltb_ℤ}
use Prim.Native.Nat.{ℕ, ◌*◌, ◌%◌, ◌^◌}
use mathlib.Core.Bool.{Bool, not, ◌&&◌}

-- All but the sign bit.
abbrev pub magnitude : ℕ → ℕ
magnitude b = b % 2 ^ 63

-- The exponent is all ones, and the mantissa is not 0.
unfoldable pub is_nan : ℕ → Bool
is_nan b = ltb (2047 * 2 ^ 52) (magnitude b)

-- A number that is ordered as the float is, for a pattern that is not NaN.
unfoldable pub rank : ℕ → ℤ
rank b = if ltb b (2 ^ 63) then pos (magnitude b) else sub_ℕ 0 (magnitude b)

unfoldable pub flt : ℕ → ℕ → Bool
flt a b = not (is_nan a) && not (is_nan b) && ltb_ℤ (rank a) (rank b)

unfoldable pub fle : ℕ → ℕ → Bool
fle a b = not (is_nan a) && not (is_nan b) && leb_ℤ (rank a) (rank b)

-- `math.NaN()`
abbrev pub nan : ℕ
nan = 0x7ff8_0000_0000_0001

-- 0.0
abbrev pub float_zero : ℕ
float_zero = 0

unfoldable pub feq : ℕ → ℕ → Bool
feq a b = not (is_nan a) && not (is_nan b) && leb_ℤ (rank a) (rank b) && leb_ℤ (rank b) (rank a)
