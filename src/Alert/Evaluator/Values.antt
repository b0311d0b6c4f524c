-- ===== src/Alert/Evaluator/Values.antt =====
-- EvaluateInt64, EvaluateFloat64 and EvaluateValue in alert/evaluator.go on valid configurations.
use go_scada.Base.{
  ℕ, ◌^◌, ◌<◌, ℤ, Text, Bool, false, not, ◌||◌, ◌≡◌, Option, Result, ok, All-map, arith, refl, Dict,
  fail_if, ap, ◌∙◌, Check, ◌>>◌,
}
use go_scada.Float.{is_nan, is_inf}
use go_scada.Value.{Value}
use go_scada.Alert.Model.{int64, float64, Interval, ValueConfig, Properties}
use go_scada.Alert.Protocol.{AlertError, input_not_finite}
use go_scada.Alert.Validation.{validate_value}
use go_scada.Alert.Validation.Cover.{IsInterval, Sole, validate_value-Sole}
use go_scada.Alert.Evaluator.{
  evaluation_for_interval, evaluate_int64, evaluate_float64, evaluate_value, int_lower_contains,
  int_upper_contains, float_lower_contains, float_upper_contains, evaluate_kind, is_int64,
  is_float64,
}
use go_scada.Alert.Evaluator.Intervals.{
  first_interval-Sole, int_below, int_below-less, int_below-same, int_below-Tests,
}
use go_scada.Alert.Evaluator.Intervals.Floats.{
  Is64Bit, float_below, float_below-less, float_below-same, float_below-Tests,
}

-- Two checks that pass.
passes :
    {A : Type 0} (b : Bool) (e : AlertError) (c : Check AlertError) (m r : Result AlertError A)
    → b ≡ false
    → c ≡ ok tt
    → m ≡ r
    → (fail_if b e >> (c >> m)) ≡ r
passes b e c m r h k same = rw (h, k) same

-- Under a valid configuration of type int64, every int64 lies in exactly one of the intervals, and the
-- evaluation is that of this interval: that no interval covers the input is never reported.
pub evaluate_value-int64 :
    (parse_float : Text → Option ℕ) (config : ValueConfig) (n : ℤ) (properties : Dict Properties)
    → validate_value parse_float config ≡ ok tt
    → config.value_type ≡ int64
    → (i : Interval) × Sole (int_below n) config.intervals i
      × (evaluate_value parse_float config (Value.int64 n) properties
          ≡ evaluation_for_interval i properties)
unfolding evaluate_value evaluate_kind evaluate_int64 is_int64
evaluate_value-int64 parse_float config n properties valid kind =
    let (all, (i, sole)) =
      validate_value-Sole parse_float int64 (int_below n) (int_below-less parse_float n)
        (int_below-same parse_float n) config valid kind in
    let found =
      first_interval-Sole (int_below n) (λ b. int_lower_contains b n) (λ b. int_upper_contains b n)
        config.intervals i properties
        (All-map (IsInterval parse_float int64) _ config.intervals (int_below-Tests parse_float n)
          all)
        sole in
    (
      i,
      sole,
      ap (λ k. evaluate_kind parse_float k config (Value.int64 n) properties) kind
          ∙ passes _ _ _ _ _ (ap (λ k. not (is_int64 k)) kind) valid found,
    )

-- Under a valid configuration of type float64, and provided that ParseFloat gives patterns of 64 bits,
-- every finite float64 lies in exactly one of the intervals, and the evaluation is that of this interval.
pub evaluate_value-float64 :
    (parse_float : Text → Option ℕ) (config : ValueConfig) (v : ℕ) (properties : Dict Properties)
    → Is64Bit parse_float
    → v < 2 ^ 64
    → (is_nan v || is_inf v) ≡ false
    → validate_value parse_float config ≡ ok tt
    → config.value_type ≡ float64
    → (i : Interval) × Sole (float_below parse_float v) config.intervals i
      × (evaluate_value parse_float config (Value.float64 v) properties
          ≡ evaluation_for_interval i properties)
unfolding evaluate_value evaluate_kind evaluate_float64 is_float64
evaluate_value-float64 parse_float config v properties bits small number valid kind =
    let (all, (i, sole)) =
      validate_value-Sole parse_float float64 (float_below parse_float v)
        (float_below-less parse_float v) (float_below-same parse_float v) config valid kind in
    let tests = float_below-Tests parse_float v in
    let found =
      first_interval-Sole (float_below parse_float v) (λ b. float_lower_contains parse_float b v)
        (λ b. float_upper_contains parse_float b v) config.intervals i properties
        (All-map (IsInterval parse_float float64) _ config.intervals
          (λ j w. tests j bits small (ground arith) w) all)
        sole in
    (
      i,
      sole,
      ap (λ k. evaluate_kind parse_float k config (Value.float64 v) properties) kind
          ∙ passes _ _ (fail_if (is_nan v || is_inf v) input_not_finite) _ _
              (ap (λ k. not (is_float64 k)) kind) (rw number refl) (rw valid found),
    )
