-- ===== src/Value/Float.antt =====
-- The IEEE 754 tests that the code makes on a `float`, read off its bit pattern, and the range of
-- the `int`s that convert to a `float`.
use dcc_mcp_obs.Base.{ℕ, ◌-◌, ◌%◌, ◌^◌, Bool, ◌||◌, ltb, leb, nat_eq}

-- math.isfinite: the exponent is not all ones
unfoldable pub is_finite : ℕ → Bool
is_finite bits = ltb (bits % 2 ^ 63) 0x7ff0000000000000

-- |x| <= the float whose bits are `limit`; false of a NaN
unfoldable pub magnitude_at_most : ℕ → ℕ → Bool
magnitude_at_most limit bits = leb (bits % 2 ^ 63) limit

-- 0 <= x <= the float whose bits are `limit`: no sign bit, or the negative zero
unfoldable pub float_from_zero : ℕ → ℕ → Bool
float_from_zero limit bits = leb bits limit || nat_eq bits (2 ^ 63)

-- the magnitudes that round to 2^1024, at which `float(n)` raises OverflowError
unfoldable pub int_too_large : ℕ → Bool
int_too_large n = leb (2 ^ 1024 - 2 ^ 970) n
