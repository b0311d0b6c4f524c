-- ===== src/Float.antt =====
-- Go's float64 and float32 by their IEEE 754 bit patterns: tests, order and widening.
-- Parsing of decimal text (strconv.ParseFloat) is a parameter where it is used.
pub mod Order
use go_scada.Base.{
  ℕ, zero, suc, ◌+◌, ◌-◌, ◌*◌, ◌/◌, ◌%◌, ◌^◌, Bool, not, ◌&&◌, ◌||◌, ltb, leb, ◌==◌, if◌then◌else◌,
}

sign64 : ℕ → ℕ
sign64 b = b / 2 ^ 63

exponent64 : ℕ → ℕ
exponent64 b = b / 2 ^ 52 % 2048

mantissa64 : ℕ → ℕ
mantissa64 b = b % 2 ^ 52

-- math.IsNaN
unfoldable pub is_nan : ℕ → Bool
unfolding exponent64 mantissa64
is_nan b = exponent64 b == 2047 && not (mantissa64 b == 0)

-- math.IsInf(value, 0)
unfoldable pub is_inf : ℕ → Bool
unfolding exponent64 mantissa64
is_inf b = exponent64 b == 2047 && mantissa64 b == 0

magnitude : ℕ → ℕ
magnitude b = b % 2 ^ 63

-- `a < b`; both zeros are equal, and a NaN is below nothing.
unfoldable pub float_lt : ℕ → ℕ → Bool
unfolding sign64 magnitude is_nan
float_lt a b =
    not (is_nan a)
    && not (is_nan b)
    && (if sign64 a == 0
        then sign64 b == 0 && ltb (magnitude a) (magnitude b)
        else if sign64 b == 0
        then not (magnitude a == 0 && magnitude b == 0)
        else ltb (magnitude b) (magnitude a))

-- `a == b`
unfoldable pub float_eq : ℕ → ℕ → Bool
unfolding magnitude is_nan
float_eq a b =
    not (is_nan a) && not (is_nan b) && (a == b || (magnitude a == 0 && magnitude b == 0))

-- `a >= b`
unfoldable pub float_ge : ℕ → ℕ → Bool
unfolding float_lt float_eq
float_ge a b = float_lt b a || float_eq a b

-- The place of the highest bit of a number below 2 ^ (n + 1), from bit n down.
high_bit : ℕ → ℕ → ℕ
high_bit zero m = 0
high_bit (suc n) m = let below = high_bit n m in if leb (2 ^ suc n) m then suc n else below

-- float64(x) of a float32 x: a NaN is made quiet, and a subnormal becomes normal.
unfoldable pub widen : ℕ → ℕ
unfolding high_bit
widen b =
    let sign = b / 2 ^ 31 * 2 ^ 63 in
    let exponent = b / 2 ^ 23 % 256 in
    let mantissa = b % 2 ^ 23 in
    if exponent == 255
    then (if mantissa == 0
        then sign + 2047 * 2 ^ 52
        else sign + 2047 * 2 ^ 52 + (2 ^ 51 + mantissa % 2 ^ 22 * 2 ^ 29))
    else if not (exponent == 0)
    then sign + (exponent + 896) * 2 ^ 52 + mantissa * 2 ^ 29
    else if mantissa == 0
    then sign
    else let k = high_bit 22 mantissa in
      sign + (k + 874) * 2 ^ 52 + (mantissa - 2 ^ k) * 2 ^ (52 - k)
