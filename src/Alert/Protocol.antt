-- ===== src/Alert/Protocol.antt =====
-- alert/protocol.go: subjects, validation of every protocol value, parsing and marshalling.
use go_scada.Base.{
  ℕ, Text, Bool, true, false, not, ◌||◌, ℤ, pos, ◌==ℤ◌, ◌<ℤ◌, List, [], ◌∷◌, ◌++◌, Option, none,
  some, Result, ok, err, Check, fail_if, wrap, ◌>>=◌, ◌>>◌, codes, is_empty, trim_space,
  trim_suffix, trim_prefix, has_suffix, text_eq, mem_text, contains_any, split_on,
}
use go_scada.Json.{Trailing, at_end, another_value, broken}
use go_scada.Alert.Model.{
  current_version, properties_prefix, config_suffix, alert_suffix, AlertType, ValueType, Properties,
  Mapping, BinaryConfig, SummaryConfig,
}

-- One constructor for each error of the package's protocol and evaluator.
pub data AlertError : Type 0 where
  decode_failed multiple_values finish_failed : AlertError
  unsupported_version : ℤ → AlertError
  color_required abbreviation_required short_sign_required negative_priority : AlertError
  subject_required surrounding_whitespace empty_token forbidden_character : AlertError
  properties_subject config_subject : AlertError
  includes_itself : Text → AlertError
  variant_count : AlertError
  variant_missing : AlertType → AlertError
  unsupported_type unsupported_value_type : Text → AlertError
  property_reference : Text → AlertError → AlertError
  good_has_property text_required : AlertError
  binary_mapping : Text → AlertError → AlertError
  intervals_required first_unbounded last_unbounded : AlertError
  value_interval : ℕ → AlertError → AlertError
  not_shared : ℕ → AlertError
  not_int64 not_finite min_not_less : AlertError
  members_required : AlertError
  member_invalid : Text → AlertError → AlertError
  member_suffix member_duplicate : Text → AlertError
  pending_acknowledged active_without_episode active_without_came active_with_went : AlertError
  went_without_came ack_without_acknowledged time_not_utc incomplete_presentation : AlertError
  state_member state_duplicate : Text → AlertError
  dominant_not_member : AlertError
  wrong_value_type : ValueType → AlertError
  wrong_input : ValueType → AlertError
  not_covered input_not_finite : AlertError
  no_state property_undefined : Text → AlertError
  property_invalid : Text → AlertError → AlertError
  previous_state : AlertError → AlertError
  episode_required episode_mismatch not_pending : AlertError

-- `decodeStrict`: the first Decode, and then what the second one meets.
unfoldable pub decode_strict : {A : Type 0} → Option (A × Trailing) → Result AlertError A
decode_strict none = err decode_failed
decode_strict (some (a, at_end)) = ok a
decode_strict (some (a, another_value)) = err multiple_values
decode_strict (some (a, broken)) = err finish_failed

check_tokens : List Text → Check AlertError
check_tokens [] = ok tt
check_tokens (token ∷ tokens) = do
  fail_if (is_empty token) empty_token
  fail_if (contains_any token (codes " \t\r\n*>")) forbidden_character
  check_tokens tokens

all_tokens : Text × List Text → List Text
all_tokens (token, others) = token ∷ others

unfoldable pub validate_subject : Text → Check AlertError
unfolding check_tokens all_tokens
validate_subject subject = do
  fail_if (is_empty (trim_space subject)) subject_required
  fail_if (not (text_eq subject (trim_space subject))) surrounding_whitespace
  check_tokens (all_tokens (split_on b'.' subject))

unfoldable pub validate_properties_subject : Text → Check AlertError
validate_properties_subject subject = do
  validate_subject subject
  let name : Text = trim_prefix subject properties_prefix
  fail_if (text_eq name subject || is_empty name || contains_any name (codes "."))
      properties_subject

unfoldable pub validate_property_reference : Text → Check AlertError
validate_property_reference subject =
    wrap (property_reference subject) (validate_properties_subject subject)

unfoldable pub input_subject : Text → Result AlertError Text
input_subject subject = do
  validate_subject subject
  let base : Text = trim_suffix subject config_suffix
  fail_if (text_eq base subject || is_empty base) config_subject
  ok base

unfoldable pub output_subject : Text → Result AlertError Text
output_subject subject = do input ← input_subject subject; ok (input ++ alert_suffix)

unfoldable pub validate_properties : Properties → Check AlertError
validate_properties p = do
  fail_if (not (p.version ==ℤ current_version)) (unsupported_version p.version)
  fail_if (is_empty (trim_space p.color)) color_required
  fail_if (is_empty (trim_space p.abbreviation)) abbreviation_required
  fail_if (is_empty (trim_space p.short_sign)) short_sign_required
  fail_if (p.priority <ℤ pos 0) negative_priority

-- The property of an active mapping or interval is a reference, that of another is empty.
unfoldable pub check_property : Bool → Text → Check AlertError
check_property true property = validate_property_reference property
check_property false property = fail_if (not (is_empty property)) good_has_property

unfoldable pub validate_mapping : Text → Bool → Mapping → Check AlertError
unfolding check_property
validate_mapping name active mapping = wrap (binary_mapping name) (do
  check_property active mapping.property
  fail_if (is_empty (trim_space mapping.text)) text_required)

unfoldable pub validate_binary : BinaryConfig → Check AlertError
validate_binary config = do
  validate_mapping (codes "true") config.bad_value config.when_true
  validate_mapping (codes "false") (not config.bad_value) config.when_false

unfoldable pub check_members : List Text → List Text → Check AlertError
check_members seen [] = ok tt
check_members seen (member ∷ members) = do
  wrap (member_invalid member) (validate_subject member)
  fail_if (not (has_suffix member alert_suffix) || is_empty (trim_suffix member alert_suffix))
      (member_suffix member)
  fail_if (mem_text member seen) (member_duplicate member)
  check_members (member ∷ seen) members

abbrev pub no_members : List Text → Bool
no_members [] = true
no_members (_ ∷ _) = false

unfoldable pub validate_summary : SummaryConfig → Check AlertError
unfolding check_members
validate_summary config = do
  fail_if (no_members config.members) members_required
  check_members [] config.members
