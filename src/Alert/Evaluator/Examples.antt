-- ===== src/Alert/Evaluator/Examples.antt =====
-- Tests of the alert evaluators and of the lifecycle, and their theorems at concrete inputs.
use go_scada.Base.{
  ℕ, Text, true, false, ◌≡◌, pos, [], ◌∷◌, Option, none, some, ok, refl, codes, Dict, lookup,
  is_empty, All, arith, trim_space, parse_int64, text_eq, split_on, contains_any, cut_prefix, ◌↔◌,
  cut_suffix, mem_text,
}
use go_scada.Value.{Value}
use go_scada.Alert.Model.{
  current_version, ValueConfig, SummaryConfig, ValueType, int64, float64, Interval, Properties,
  State, Evaluation, Time, Presentation,
}
use go_scada.Alert.Protocol.{
  validate_summary, check_property, validate_property_reference, validate_properties_subject,
  validate_subject,
}
use go_scada.Alert.Validation.{
  validate_value, validate_state, parse_bound, bounds_equal, int_equal, validate_flags,
  validate_presentation, validate_members,
}
use go_scada.Alert.Validation.Cover.{Sole}
use go_scada.Alert.Evaluator.{
  evaluate_value, evaluate_summary, evaluation_for_interval, apply_evaluation, acknowledge,
  check_previous, evaluate_kind, evaluate_int64, is_int64, first_interval, int_lower_contains,
  int_upper_contains, test_bound, count_member, sum_member, sum_members, summary_evaluation,
}
use go_scada.Alert.Evaluator.Lifecycle.{Follows, acknowledged_at, acknowledge_iff}
use go_scada.Alert.Evaluator.Accepted.{by_summary, apply_evaluation-Evaluated}
use go_scada.Alert.Evaluator.Dominance.{IsSummary, HasValidState, evaluate_summary-dominant}
use go_scada.Alert.Evaluator.Intervals.{int_below}
use go_scada.Alert.Evaluator.Intervals.Floats.{float_below, Is64Bit}
use go_scada.Float.{is_inf, is_nan, float_eq}
use go_scada.Alert.Evaluator.Accepted.{by_summary, apply_evaluation-Evaluated}
use go_scada.Alert.Evaluator.Dominance.{IsSummary, HasValidState, evaluate_summary-dominant}
use go_scada.Alert.Evaluator.Values.{evaluate_value-int64, evaluate_value-float64}

abbrev high : Text
high = codes "AlertProperties.high"

abbrev red : Properties
red = record {
  version = current_version;
  color = codes "red";
  abbreviation = codes "HH";
  short_sign = codes "H";
  priority = pos 10;
  requires_acknowledgement = true;
}

abbrev properties : Dict Properties
properties = (high, red) ∷ []

abbrev normal : Option Text → Option Text → Interval
normal lower upper = record {
  lower = lower;
  upper = upper;
  active = false;
  property = [];
  text = codes "normal";
}

abbrev too_high : Option Text → Option Text → Interval
too_high lower upper = record {
  lower = lower;
  upper = upper;
  active = true;
  property = high;
  text = codes "too high";
}

abbrev limits : ValueType → ValueConfig
limits kind = record {
  value_type = kind;
  intervals = normal none (some (codes "10")) ∷ too_high (some (codes "10")) none ∷ [];
}

-- Every text is read as 10.0.
abbrev ten : Text → Option ℕ
ten t = some 4621819117588971520

ten-Is64Bit : Is64Bit ten
ten-Is64Bit t b h = ground arith

evaluation_at_ten :
    evaluate_value ten (limits int64) (Value.int64 (pos 10)) properties
    ≡ evaluation_for_interval (too_high (some (codes "10")) none) properties
unfolding evaluate_value evaluate_kind evaluate_int64 is_int64 first_interval int_lower_contains
    int_upper_contains test_bound validate_value check_property parse_bound bounds_equal int_equal
    validate_property_reference validate_properties_subject validate_subject trim_space split_on
    contains_any cut_prefix text_eq parse_int64
evaluation_at_ten = refl

limits-valid : validate_value ten (limits int64) ≡ ok tt
unfolding validate_value check_property trim_space parse_bound parse_int64
    validate_property_reference validate_properties_subject validate_subject text_eq split_on
    contains_any cut_prefix bounds_equal
limits-valid = refl

float_limits-valid : validate_value ten (limits float64) ≡ ok tt
unfolding validate_value check_property trim_space parse_bound is_inf is_nan
    validate_property_reference validate_properties_subject validate_subject text_eq split_on
    contains_any cut_prefix bounds_equal float_eq
float_limits-valid = refl

evaluate_value-int64_example :
    (i : Interval) × Sole (int_below (pos 12)) (limits int64).intervals i
    × (evaluate_value ten (limits int64) (Value.int64 (pos 12)) properties
        ≡ evaluation_for_interval i properties)
evaluate_value-int64_example =
    evaluate_value-int64 ten (limits int64) (pos 12) properties limits-valid refl

evaluate_value-float64_example :
    (i : Interval) × Sole (float_below ten 4621819117588971521) (limits float64).intervals i
    × (evaluate_value ten (limits float64) (Value.float64 4621819117588971521) properties
        ≡ evaluation_for_interval i properties)
unfolding is_nan is_inf
evaluate_value-float64_example =
    evaluate_value-float64 ten (limits float64) 4621819117588971521 properties ten-Is64Bit
      (ground arith) refl float_limits-valid refl

abbrev came : Time
came = record { instant = 5; offset = pos 0 }

-- An alert that is active and not acknowledged.
abbrev pending_state : Presentation → State
pending_state p = record {
  version = current_version;
  active = true;
  pending = true;
  presentation = p;
  text = codes "too high";
  acknowledged = false;
  came_time = some came;
  went_time = none;
  ack_time = none;
  dominant = [];
  members = [];
  episode_id = codes "episode";
}

abbrev presentation : ℕ → Presentation
presentation n = record {
  property = high;
  color = codes "red";
  abbreviation = codes "HH";
  short_sign = codes "H";
  priority = pos n;
  requires_acknowledgement = true;
}

abbrev left : Text
left = codes "left.alert"

abbrev right : Text
right = codes "right.alert"

abbrev states : Dict State
states = (left, pending_state (presentation 3)) ∷ (right, pending_state (presentation 7)) ∷ []

abbrev both : SummaryConfig
both = record { members = left ∷ right ∷ [] }

both-valid : validate_summary both ≡ ok tt
unfolding validate_summary validate_subject trim_space text_eq split_on contains_any cut_suffix
    mem_text
both-valid = refl

pending-valid : (n : ℕ) → validate_state (pending_state (presentation n)) ≡ ok tt
unfolding validate_state validate_flags validate_presentation validate_property_reference
    validate_properties_subject validate_subject trim_space text_eq split_on contains_any cut_prefix
    validate_members
pending-valid n = refl

states-valid : All (HasValidState states) both.members
unfolding lookup text_eq
states-valid = (
  (pending_state (presentation 3), refl, pending-valid 3),
  ((pending_state (presentation 7), refl, pending-valid 7), tt),
)

evaluate_summary-dominant_example :
    (e : Evaluation) × (evaluate_summary both states ≡ ok e) × IsSummary states both.members e
evaluate_summary-dominant_example = evaluate_summary-dominant both states both-valid states-valid

abbrev summary_of_both : Evaluation
summary_of_both = record {
  active = true;
  pending = true;
  acknowledged = false;
  presentation = presentation 7;
  text = codes "too high";
  dominant = right;
  members = left ∷ right ∷ [];
}

right_dominates : evaluate_summary both states ≡ ok summary_of_both
unfolding evaluate_summary validate_summary validate_subject trim_space text_eq split_on
    contains_any cut_suffix mem_text lookup validate_state validate_flags validate_presentation
    validate_property_reference validate_properties_subject cut_prefix validate_members count_member
    sum_member sum_members summary_evaluation
right_dominates = refl

apply_evaluation-Evaluated_example :
    (s : State) × (apply_evaluation none summary_of_both came (codes "episode") ≡ ok s)
    × (validate_state s ≡ ok tt)
    × Follows none summary_of_both came (codes "episode") s
unfolding check_previous
apply_evaluation-Evaluated_example =
    apply_evaluation-Evaluated ten none summary_of_both came (codes "episode")
      (by_summary both states right_dominates) refl refl

acknowledge_iff_example :
    (acknowledge (pending_state (presentation 3)) (codes "episode") came
      ≡ ok (acknowledged_at (pending_state (presentation 3)) came))
    ↔ ((validate_state (pending_state (presentation 3)) ≡ ok tt)
        × (is_empty (codes "episode") ≡ false)
        × (codes "episode" ≡ codes "episode")
        × (true ≡ true)
        × (acknowledged_at (pending_state (presentation 3)) came
            ≡ acknowledged_at (pending_state (presentation 3)) came)
        × (validate_state (acknowledged_at (pending_state (presentation 3)) came) ≡ ok tt))
acknowledge_iff_example =
    acknowledge_iff (pending_state (presentation 3)) (codes "episode") came
      (acknowledged_at (pending_state (presentation 3)) came)
