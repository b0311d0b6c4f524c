-- ===== src/Alert/Validation.antt =====
-- alert/protocol.go: validation of value configurations, of whole configurations and of states.
pub mod Cover
use go_scada.Base.{
  ℕ, ◌+◌, Text, Bool, true, false, not, ◌&&◌, ◌||◌, ℤ, pos, ◌==ℤ◌, ◌<ℤ◌, List, [], ◌∷◌, Option,
  none, some, is_some, Result, ok, err, Check, fail_if, wrap, ◌>>=◌, ◌>>◌, is_empty, trim_space,
  has_suffix, mem_text, parse_int64, if◌then◌else◌, ◌==◌,
}
use go_scada.Json.{Decoder}
use go_scada.Float.{is_nan, is_inf, float_lt, float_eq}
use go_scada.Alert.Model.{
  current_version, alert_suffix, AlertType, ValueType, int64, float64, other_type, Properties,
  Interval, ValueConfig, SummaryConfig, Config, Presentation, Time, State,
}
use go_scada.Alert.Protocol.{
  AlertError, unsupported_version, includes_itself, variant_count, variant_missing,
  unsupported_type, unsupported_value_type, text_required, intervals_required, first_unbounded,
  last_unbounded, value_interval, not_shared, not_int64, not_finite, min_not_less,
  pending_acknowledged, active_without_episode, active_without_came, active_with_went,
  went_without_came, ack_without_acknowledged, time_not_utc, incomplete_presentation, state_member,
  state_duplicate, dominant_not_member, decode_strict, validate_subject,
  validate_property_reference, output_subject, validate_properties, check_property, validate_binary,
  validate_summary,
}

-- strconv.ParseFloat is a parameter: the bits of the nearest float64, `none` for an error.
module _ (parse_float : Text → Option ℕ) where
  unfoldable pub finite : Option ℕ → Check AlertError
  finite none = err not_finite
  finite (some b) = fail_if (is_inf b || is_nan b) not_finite

  -- The error of parseBound, whose values no caller uses.
  unfoldable pub parse_bound : ValueType → Option Text → Check AlertError
  unfolding finite
  parse_bound kind none = ok tt
  parse_bound int64 (some bound) = fail_if (not (is_some (parse_int64 bound))) not_int64
  parse_bound _ (some bound) = finite (parse_float bound)

  -- validateInterval has parsed both bounds, so that neither parses to `none` here.
  unfoldable pub int_less : Option ℤ → Option ℤ → Bool
  int_less (some a) (some b) = a <ℤ b
  int_less _ _ = false

  unfoldable pub bits_less : Option ℕ → Option ℕ → Bool
  bits_less (some a) (some b) = float_lt a b
  bits_less _ _ = false

  unfoldable pub bound_less : ValueType → Text → Text → Bool
  unfolding int_less bits_less
  bound_less int64 left right = int_less (parse_int64 left) (parse_int64 right)
  bound_less _ left right = bits_less (parse_float left) (parse_float right)

  unfoldable pub int_equal : Option ℤ → Option ℤ → Bool
  int_equal (some a) (some b) = a ==ℤ b
  int_equal _ _ = false

  unfoldable pub bits_equal : Option ℕ → Option ℕ → Bool
  bits_equal (some a) (some b) = float_eq a b
  bits_equal _ _ = false

  unfoldable pub bounds_equal : ValueType → Text → Text → Bool
  unfolding int_equal bits_equal
  bounds_equal int64 left right = int_equal (parse_int64 left) (parse_int64 right)
  bounds_equal _ left right = bits_equal (parse_float left) (parse_float right)

  -- `hasMin && hasMax && !config.boundLess(interval.Min, interval.Max)`
  pub disordered : ValueType → Option Text → Option Text → Bool
  disordered kind (some left) (some right) = not (bound_less kind left right)
  disordered kind _ _ = false

  validate_interval : ValueType → ℕ → Interval → Check AlertError
  validate_interval kind index interval = wrap (value_interval index) (do
    check_property interval.active interval.property
    fail_if (is_empty (trim_space interval.text)) text_required
    parse_bound kind interval.lower
    parse_bound kind interval.upper
    fail_if (disordered kind interval.lower interval.upper) min_not_less)

  validate_intervals : ValueType → ℕ → List Interval → Check AlertError
  validate_intervals kind index [] = ok tt
  validate_intervals kind index (interval ∷ intervals) = do
    validate_interval kind index interval
    validate_intervals kind (index + 1) intervals

  last_upper : Interval → List Interval → Option Text
  last_upper interval [] = interval.upper
  last_upper interval (next ∷ rest) = last_upper next rest

  -- `previous.Max == nil || current.Min == nil || !config.boundsEqual(previous.Max, current.Min)`
  shared : ValueType → Option Text → Option Text → Bool
  shared kind (some upper) (some lower) = bounds_equal kind upper lower
  shared kind _ _ = false

  check_shared : ValueType → ℕ → Interval → List Interval → Check AlertError
  check_shared kind index previous [] = ok tt
  check_shared kind index previous (current ∷ rest) = do
    fail_if (not (shared kind previous.upper current.lower)) (not_shared index)
    check_shared kind (index + 1) current rest

  -- From `len(config.Intervals) == 0` on.
  check_intervals : ValueType → List Interval → Check AlertError
  check_intervals kind [] = err intervals_required
  check_intervals kind (first ∷ rest) = do
    validate_intervals kind 0 (first ∷ rest)
    fail_if (is_some first.lower) first_unbounded
    fail_if (is_some (last_upper first rest)) last_unbounded
    check_shared kind 1 first rest

  check_kind : ValueType → Check AlertError
  check_kind (other_type name) = err (unsupported_value_type name)
  check_kind int64 = ok tt
  check_kind float64 = ok tt

  unfoldable pub validate_value : ValueConfig → Check AlertError
  unfolding check_kind check_intervals validate_intervals validate_interval last_upper check_shared
      shared disordered
  validate_value config = do
    check_kind config.value_type
    check_intervals config.value_type config.intervals

  count_some : {A : Type 0} → Option A → ℕ
  count_some none = 0
  count_some (some _) = 1

  check_variant : Config → AlertType → Check AlertError
  check_variant config AlertType.binary = elim config.binary [
    | none ↦ err (variant_missing AlertType.binary)
    | some b ↦ validate_binary b
  ]
  check_variant config AlertType.value = elim config.value [
    | none ↦ err (variant_missing AlertType.value)
    | some v ↦ validate_value v
  ]
  check_variant config AlertType.summary = elim config.summary [
    | none ↦ err (variant_missing AlertType.summary)
    | some s ↦ validate_summary s
  ]
  check_variant config (AlertType.other name) = err (unsupported_type name)

  pub validate_config : Config → Check AlertError
  unfolding count_some check_variant
  validate_config config = do
    fail_if (not (config.version ==ℤ current_version)) (unsupported_version config.version)
    fail_if
        (not (count_some config.binary + count_some config.value + count_some config.summary == 1))
        variant_count
    check_variant config config.kind

  -- The summary of the configuration does not list its own output.
  excludes : Text → Option SummaryConfig → Check AlertError
  excludes output none = ok tt
  excludes output (some s) = fail_if (mem_text output s.members) (includes_itself output)

  pub validate_for_subject : Config → Text → Check AlertError
  unfolding excludes
  validate_for_subject config subject = do
    validate_config config
    output ← output_subject subject
    excludes output config.summary

  pub parse_config : Decoder Config → Text → Result AlertError Config
  parse_config decode value = do
    config ← decode_strict (decode value)
    validate_config config
    ok config

  pub marshal_config : (Config → Text) → Config → Result AlertError Text
  marshal_config encode config = do validate_config config; ok (encode config)

unfoldable pub parse_properties : Decoder Properties → Text → Result AlertError Properties
parse_properties decode value = do
  properties ← decode_strict (decode value)
  validate_properties properties
  ok properties

unfoldable pub marshal_properties : (Properties → Text) → Properties → Result AlertError Text
marshal_properties encode properties = do validate_properties properties; ok (encode properties)

is_utc : Option Time → Bool
is_utc none = true
is_utc (some t) = t.offset ==ℤ pos 0

has_presentation : Presentation → Bool
has_presentation p =
    not (is_empty p.property)
    || not (is_empty p.color)
    || not (is_empty p.abbreviation)
    || not (is_empty p.short_sign)
    || not (p.priority ==ℤ pos 0)
    || p.requires_acknowledgement

unfoldable pub validate_presentation : Presentation → Check AlertError
unfolding has_presentation
validate_presentation p =
    if has_presentation p
    then (do
      validate_property_reference p.property
      fail_if
          (is_empty (trim_space p.color)
            || is_empty (trim_space p.abbreviation)
            || is_empty (trim_space p.short_sign))
          incomplete_presentation)
    else ok tt

-- `validateSubject(member) != nil || !HasSuffix(member, alertSuffix)`
abbrev pub bad_member : Text → Result AlertError (Unit {0}) → Bool
bad_member member (ok _) = not (has_suffix member alert_suffix)
bad_member member (err _) = true

unfoldable pub check_state_members : List Text → List Text → Check AlertError
check_state_members seen [] = ok tt
check_state_members seen (member ∷ members) = do
  fail_if (bad_member member (validate_subject member)) (state_member member)
  fail_if (mem_text member seen) (state_duplicate member)
  check_state_members (member ∷ seen) members

-- The members, and the dominant one among them.
unfoldable pub validate_members : Text → List Text → Check AlertError
unfolding check_state_members
validate_members dominant members = do
  check_state_members [] members
  fail_if (not (is_empty dominant) && not (mem_text dominant members)) dominant_not_member

-- The flags, identity and times of a state.
unfoldable pub validate_flags : State → Check AlertError
unfolding is_utc
validate_flags s = do
  fail_if (not (s.version ==ℤ current_version)) (unsupported_version s.version)
  fail_if (s.pending && s.acknowledged) pending_acknowledged
  fail_if (s.active && is_empty s.episode_id) active_without_episode
  fail_if (s.active && not (is_some s.came_time)) active_without_came
  fail_if (s.active && is_some s.went_time) active_with_went
  fail_if (is_some s.went_time && not (is_some s.came_time)) went_without_came
  fail_if (is_some s.ack_time && not s.acknowledged) ack_without_acknowledged
  fail_if (not (is_utc s.came_time && is_utc s.went_time && is_utc s.ack_time)) time_not_utc

unfoldable pub validate_state : State → Check AlertError
validate_state s = do
  validate_flags s
  validate_presentation s.presentation
  validate_members s.dominant s.members

unfoldable pub parse_state_unchecked : Decoder State → Text → Result AlertError State
parse_state_unchecked decode value = decode_strict (decode value)

unfoldable pub parse_state : Decoder State → Text → Result AlertError State
parse_state decode value = do
  state ← parse_state_unchecked decode value
  validate_state state
  ok state

unfoldable pub marshal_state : (State → Text) → State → Result AlertError Text
marshal_state encode state = do validate_state state; ok (encode state)
