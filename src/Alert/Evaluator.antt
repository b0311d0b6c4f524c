-- ===== src/Alert/Evaluator.antt =====
-- alert/evaluator.go: evaluation of the three kinds of alert, and the lifecycle of a state.
pub mod Lifecycle
pub mod Intervals
pub mod Dominance
pub mod Evaluations
pub mod Values
pub mod Accepted
mod Examples
pub mod Plain
use go_scada.Base.{
  ℕ, ◌+◌, Text, Bool, true, false, not, ◌&&◌, ◌||◌, ℤ, pos, ◌==ℤ◌, ◌<ℤ◌, List, [], ◌∷◌, ◌++◌,
  Option, none, some, is_some, Result, ok, err, Check, fail_if, wrap, ◌>>=◌, ◌>>◌, is_empty,
  text_eq, parse_int64, if◌then◌else◌, Dict, lookup,
}
use go_scada.Float.{is_nan, is_inf, float_lt, float_ge}
use go_scada.Value.{Value}
use go_scada.Alert.Model.{
  current_version, AlertType, ValueType, int64, float64, other_type, Properties, Mapping,
  BinaryConfig, Interval, ValueConfig, SummaryConfig, Presentation, no_presentation, Time, State,
  Evaluation,
}
use go_scada.Alert.Protocol.{
  AlertError, unsupported_value_type, not_int64, not_finite, wrong_value_type, wrong_input,
  not_covered, input_not_finite, no_state, property_undefined, property_invalid, previous_state,
  member_invalid, episode_required, episode_mismatch, not_pending, validate_properties,
  validate_binary, validate_summary,
}
use go_scada.Alert.Validation.{validate_value, validate_state}

presentation_of : Text → Properties → Presentation
presentation_of subject p = record {
  property = subject;
  color = p.color;
  abbreviation = p.abbreviation;
  short_sign = p.short_sign;
  priority = p.priority;
  requires_acknowledgement = p.requires_acknowledgement;
}

found_presentation : Text → Option Properties → Result AlertError Presentation
found_presentation subject none = err (property_undefined subject)
found_presentation subject (some p) = do
  wrap (property_invalid subject) (validate_properties p)
  ok (presentation_of subject p)

unfoldable pub resolve_presentation : Text → Dict Properties → Result AlertError Presentation
unfolding found_presentation presentation_of
resolve_presentation subject properties = found_presentation subject (lookup subject properties)

-- The presentation of an active state; that of another is empty.
presentation_if : Bool → Text → Dict Properties → Result AlertError Presentation
presentation_if true property properties = resolve_presentation property properties
presentation_if false property properties = ok no_presentation

-- What EvaluateBinary and evaluationForInterval return.
plain : Bool → Presentation → Text → Evaluation
plain active presentation text = record {
  active = active;
  pending = false;
  acknowledged = false;
  presentation = presentation;
  text = text;
  dominant = [];
  members = [];
}

-- `value == config.BadValue`
abbrev pub same_flag : Bool → Bool → Bool
same_flag true b = b
same_flag false b = not b

unfoldable pub evaluate_binary :
    BinaryConfig → Bool → Dict Properties → Result AlertError Evaluation
unfolding presentation_if plain
evaluate_binary config value properties = do
  validate_binary config
  let mapping : Mapping = if value then config.when_true else config.when_false
  let active : Bool = same_flag value config.bad_value
  presentation ← presentation_if active mapping.property properties
  ok (plain active presentation mapping.text)

unfoldable pub evaluation_for_interval : Interval → Dict Properties → Result AlertError Evaluation
unfolding presentation_if plain
evaluation_for_interval interval properties = do
  presentation ← presentation_if interval.active interval.property properties
  ok (plain interval.active presentation interval.text)

-- A bound that does not parse is an error; `test` compares with one that does.
pub test_bound : {A : Type 0} → AlertError → (A → Bool) → Option A → Result AlertError Bool
test_bound e test none = err e
test_bound e test (some bound) = ok (test bound)

pub int_lower_contains : Option Text → ℤ → Result AlertError Bool
unfolding test_bound
int_lower_contains none value = ok true
int_lower_contains (some bound) value =
    test_bound not_int64 (λ low. not (value <ℤ low)) (parse_int64 bound)

pub int_upper_contains : Option Text → ℤ → Result AlertError Bool
unfolding test_bound
int_upper_contains none value = ok true
int_upper_contains (some bound) value =
    test_bound not_int64 (λ high. value <ℤ high) (parse_int64 bound)

-- The loop over the intervals, with the two tests of the value.
pub first_interval :
    (Option Text → Result AlertError Bool)
    → (Option Text → Result AlertError Bool)
    → List Interval
    → Dict Properties
    → Result AlertError Evaluation
first_interval lower upper [] properties = err not_covered
first_interval lower upper (interval ∷ intervals) properties =
    let rest = first_interval lower upper intervals properties in
    (do
      min_ok ← lower interval.lower
      max_ok ← upper interval.upper
      if min_ok && max_ok then evaluation_for_interval interval properties else rest)

is_int64 : ValueType → Bool
is_int64 int64 = true
is_int64 _ = false

is_float64 : ValueType → Bool
is_float64 float64 = true
is_float64 _ = false

module _ (parse_float : Text → Option ℕ) where
  pub evaluate_int64 : ValueConfig → ℤ → Dict Properties → Result AlertError Evaluation
  evaluate_int64 config value properties = do
    fail_if (not (is_int64 config.value_type)) (wrong_value_type config.value_type)
    validate_value parse_float config
    first_interval (λ b. int_lower_contains b value) (λ b. int_upper_contains b value)
        config.intervals properties

  pub float_lower_contains : Option Text → ℕ → Result AlertError Bool
  unfolding test_bound
  float_lower_contains none value = ok true
  float_lower_contains (some bound) value =
      test_bound not_finite (λ low. float_ge value low) (parse_float bound)

  pub float_upper_contains : Option Text → ℕ → Result AlertError Bool
  unfolding test_bound
  float_upper_contains none value = ok true
  float_upper_contains (some bound) value =
      test_bound not_finite (λ high. float_lt value high) (parse_float bound)

  pub evaluate_float64 : ValueConfig → ℕ → Dict Properties → Result AlertError Evaluation
  evaluate_float64 config value properties = do
    fail_if (not (is_float64 config.value_type)) (wrong_value_type config.value_type)
    fail_if (is_nan value || is_inf value) input_not_finite
    validate_value parse_float config
    first_interval (λ b. float_lower_contains b value) (λ b. float_upper_contains b value)
        config.intervals properties

  -- The type switch of EvaluateValue.
  evaluate_kind : ValueType → ValueConfig → Value → Dict Properties → Result AlertError Evaluation
  evaluate_kind int64 config (Value.int64 n) properties = evaluate_int64 config n properties
  evaluate_kind int64 config _ properties = err (wrong_input int64)
  evaluate_kind float64 config (Value.float64 b) properties = evaluate_float64 config b properties
  evaluate_kind float64 config _ properties = err (wrong_input float64)
  evaluate_kind (other_type name) config v properties = err (unsupported_value_type name)

  pub evaluate_value : ValueConfig → Value → Dict Properties → Result AlertError Evaluation
  evaluate_value config v properties = evaluate_kind config.value_type config v properties

-- The variables of the loop of EvaluateSummary: the result so far and the dominant state.
pub record Summing : Type 0 where
  pub active : Bool
  pub pending : Bool
  pub members : List Text
  pub subject : Text
  pub dominant : Option State

abbrev pub no_members_yet : Summing
no_members_yet = record {
  active = false;
  pending = false;
  members = [];
  subject = [];
  dominant = none;
}

-- `dominant == nil || (state.Active && !dominant.Active) || …`
abbrev pub dominates : State → Option State → Bool
dominates s none = true
dominates s (some d) =
    (s.active && not d.active)
    || (same_flag s.active d.active && d.presentation.priority <ℤ s.presentation.priority)

-- One member, whose state is active or pending.
unfoldable pub count_member : Text → State → Summing → Summing
count_member subject s r =
    let counted = record r {
      active = r.active || s.active;
      pending = r.pending || s.pending;
      members = r.members ++ subject ∷ [];
    } in
    if dominates s r.dominant
    then record counted { subject = subject; dominant = some s }
    else counted

-- One round of the loop.
sum_member : Text → Option State → Summing → Result AlertError Summing
sum_member subject none r = err (no_state subject)
sum_member subject (some s) r = do
  wrap (member_invalid subject) (validate_state s)
  ok (if not s.active && not s.pending then r else count_member subject s r)

sum_members : List Text → Dict State → Summing → Result AlertError Summing
sum_members [] states r = ok r
sum_members (subject ∷ subjects) states r = do
  r' ← sum_member subject (lookup subject states) r
  sum_members subjects states r'

-- From `dominant == nil` on.
summary_evaluation : Summing → Option State → Evaluation
summary_evaluation r none = record {
  active = r.active;
  pending = r.pending;
  acknowledged = true;
  presentation = no_presentation;
  text = [];
  dominant = r.subject;
  members = r.members;
}
summary_evaluation r (some d) = record {
  active = r.active;
  pending = r.pending;
  acknowledged = not r.pending;
  presentation = d.presentation;
  text = d.text;
  dominant = r.subject;
  members = r.members;
}

unfoldable pub evaluate_summary : SummaryConfig → Dict State → Result AlertError Evaluation
unfolding sum_members sum_member count_member summary_evaluation
evaluate_summary config states = do
  validate_summary config
  r ← sum_members config.members states no_members_yet
  ok (summary_evaluation r r.dominant)

-- now.UTC()
abbrev pub utc : Time → Time
utc t = record t { offset = pos 0 }

-- The state from the evaluation, with what a previous state hands on.
carry : Option State → Evaluation → State
carry none e = record {
  version = current_version;
  active = e.active;
  pending = false;
  presentation = e.presentation;
  text = e.text;
  acknowledged = false;
  came_time = none;
  went_time = none;
  ack_time = none;
  dominant = e.dominant;
  members = e.members;
  episode_id = [];
}
carry (some previous) e = record {
  version = current_version;
  active = e.active;
  pending = previous.pending;
  presentation = e.presentation;
  text = e.text;
  acknowledged = previous.acknowledged;
  came_time = previous.came_time;
  went_time = previous.went_time;
  ack_time = previous.ack_time;
  dominant = e.dominant;
  members = e.members;
  episode_id = previous.episode_id;
}

-- `previous != nil && previous.Active`
abbrev pub was_active : Option State → Bool
was_active none = false
was_active (some previous) = previous.active

-- The branch `starting`.
start_episode : State → Evaluation → Time → Text → State
start_episode s e now episode_id =
    let pending = e.pending || (e.presentation.requires_acknowledgement && not e.acknowledged) in
    record s {
      came_time = some now;
      went_time = none;
      ack_time = none;
      episode_id = episode_id;
      pending = pending;
      acknowledged = not pending;
    }

-- The branch `evaluation.Active` of an episode that goes on.
continue_episode : State → Evaluation → State
continue_episode s e =
    if s.pending || e.pending
    then record s { pending = true; acknowledged = false; ack_time = none }
    else record s { pending = false }

-- The last branch: the alert is not active.
end_episode : Bool → State → Evaluation → Time → State
end_episode was s e now =
    let went = if was then some now else s.went_time in
    if s.pending || e.pending
    then record s { went_time = went; pending = true; acknowledged = false; ack_time = none }
    else record s {
      went_time = went;
      pending = false;
      acknowledged = e.acknowledged || not e.presentation.requires_acknowledgement;
    }

-- The lifecycle rules, between the two validations.
advance : Option State → Evaluation → Time → Text → Result AlertError State
advance previous e now episode_id =
    let s = carry previous e in
    if e.active && not (was_active previous)
    then (do fail_if (is_empty episode_id) episode_required; ok (start_episode s e now episode_id))
    else if e.active
    then ok (continue_episode s e)
    else ok (end_episode (was_active previous) s e now)

unfoldable pub check_previous : Option State → Check AlertError
check_previous none = ok tt
check_previous (some previous) = wrap previous_state (validate_state previous)

unfoldable pub apply_evaluation : Option State → Evaluation → Time → Text → Result AlertError State
unfolding check_previous advance carry start_episode continue_episode end_episode
apply_evaluation previous e now episode_id = do
  check_previous previous
  s ← advance previous e (utc now) episode_id
  validate_state s
  ok s

unfoldable pub acknowledge : State → Text → Time → Result AlertError State
acknowledge s episode_id now = do
  validate_state s
  fail_if (is_empty episode_id || not (text_eq episode_id s.episode_id)) episode_mismatch
  fail_if (not s.pending) not_pending
  ok (record s { pending = false; acknowledged = true; ack_time = some (utc now) })
