-- ===== src/Alert/Evaluator/Intervals/Floats.antt =====
-- The bounds of EvaluateFloat64 in alert/evaluator.go, for a finite value.
use go_scada.Base.{
  ℕ, ◌^◌, ◌<◌, Text, Bool, true, false, not, ◌≡◌, Option, none, some, ok, arith, refl, ap,
}
use go_scada.Float.{is_nan, float_lt, float_ge}
use go_scada.Float.Order.{float_lt_trans, float_lt-eq, float_ge-lt}
use go_scada.Alert.Model.{float64, Interval}
use go_scada.Alert.Protocol.{not_finite}
use go_scada.Alert.Validation.{parse_bound, finite, bound_less, bounds_equal, bits_less, bits_equal}
use go_scada.Alert.Validation.Cover.{IsInterval, not_under, under}
use go_scada.Alert.Evaluator.{float_lower_contains, float_upper_contains, test_bound}
use go_scada.Alert.Evaluator.Intervals.{Tests, below_bound}

abbrev pub float_below : (Text → Option ℕ) → ℕ → Text → Bool
float_below parse_float b bound = below_bound (λ high. float_lt b high) (parse_float bound)

-- strconv.ParseFloat gives patterns of 64 bits.
abbrev pub Is64Bit : (Text → Option ℕ) → Type 0
Is64Bit parse_float = (t : Text) (b : ℕ) → parse_float t ≡ some b → b < 2 ^ 64

module _ (parse_float : Text → Option ℕ) where
  pub float_below-less :
      (v : ℕ) (a b : Text)
      → bound_less parse_float float64 a b ≡ true
      → float_below parse_float v a ≡ true
      → float_below parse_float v b ≡ true
  unfolding bound_less bits_less
  float_below-less v a b h k = less (parse_float a) (parse_float b) h k
    where
      less :
          (x y : Option ℕ)
          → bits_less parse_float x y ≡ true
          → below_bound (λ high. float_lt v high) x ≡ true
          → below_bound (λ high. float_lt v high) y ≡ true
      less none y h k = cc
      less (some x) none h k = cc
      less (some x) (some y) h k = float_lt_trans v x y k h

  pub float_below-same :
      (v : ℕ) (a b : Text)
      → bounds_equal parse_float float64 a b ≡ true
      → float_below parse_float v a ≡ float_below parse_float v b
  unfolding bounds_equal bits_equal
  float_below-same v a b h = same (parse_float a) (parse_float b) h
    where
      same :
          (x y : Option ℕ)
          → bits_equal parse_float x y ≡ true
          → below_bound (λ high. float_lt v high) x ≡ below_bound (λ high. float_lt v high) y
      same none y h = cc
      same (some x) none h = cc
      same (some x) (some y) h = float_lt-eq v x y h

  low_finite :
      (v : ℕ) (o : Option ℕ)
      → v < 2 ^ 64
      → is_nan v ≡ false
      → ((b : ℕ) → o ≡ some b → b < 2 ^ 64)
      → finite parse_float o ≡ ok tt
      → test_bound not_finite (λ low. float_ge v low) o
        ≡ ok (not (below_bound (λ high. float_lt v high) o))
  unfolding test_bound finite
  low_finite v none sv nv small h = cc
  low_finite v (some b) sv nv small h =
      ap ok (float_ge-lt v b sv (small b refl) nv (ground (arith, h)))

  high_finite :
      (v : ℕ) (o : Option ℕ)
      → finite parse_float o ≡ ok tt
      → test_bound not_finite (λ high. float_lt v high) o
        ≡ ok (below_bound (λ high. float_lt v high) o)
  unfolding test_bound finite
  high_finite v none h = cc
  high_finite v (some b) h = refl

  pub float_below-Tests :
      (v : ℕ) (i : Interval)
      → Is64Bit parse_float
      → v < 2 ^ 64
      → is_nan v ≡ false
      → IsInterval parse_float float64 i
      → Tests
          (float_below parse_float v)
          (λ b. float_lower_contains parse_float b v)
          (λ b. float_upper_contains parse_float b v)
          i
  unfolding float_lower_contains float_upper_contains parse_bound
  float_below-Tests v i bits sv nv valid = record {
    low = low i.lower valid.lower_parses;
    high = high i.upper valid.upper_parses;
  }
    where
      low :
          (b : Option Text)
          → parse_bound parse_float float64 b ≡ ok tt
          → float_lower_contains parse_float b v ≡ ok (not_under (float_below parse_float v) b)
      low none h = refl
      low (some b) h = low_finite v (parse_float b) sv nv (bits b) h

      high :
          (b : Option Text)
          → parse_bound parse_float float64 b ≡ ok tt
          → float_upper_contains parse_float b v ≡ ok (under (float_below parse_float v) b)
      high none h = refl
      high (some b) h = high_finite v (parse_float b) h
