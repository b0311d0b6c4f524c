-- ===== src/Address.antt =====
-- address/descriptor.go: the protocol-neutral envelopes of `.address` and `.config` subjects.
pub mod RoundTrip
mod Examples
use go_scada.Base.{
  Text, Bool, true, false, not, ◌&&◌, ◌||◌, ℤ, pos, ◌==ℤ◌, Option, none, some, Check, Result, ok,
  err, fail_if, ◌>>=◌, ◌>>◌, codes, is_empty, trim_space, has_suffix, is_some,
}
use go_scada.Json.{Trailing, at_end, another_value, broken, Decoder}

abbrev pub current_version : ℤ
current_version = pos 1

-- Go's string type with its constants; `other` is any other string.
pub data ValueType : Type 0 where
  bool int64 float64 string : ValueType
  other : Text → ValueType

pub record Descriptor : Type 0 where
  pub version : ℤ
  pub driver : Text
  pub value_type : ValueType
  pub enabled : Bool
  pub connection : Text
  pub publish_on_change : Bool
  pub config : Text

pub record Connection : Type 0 where
  pub version : ℤ
  pub driver : Text
  pub enabled : Bool
  pub config : Text

-- One constructor for each error that the package returns.
pub data AddressError : Type 0 where
  decode_failed multiple_values finish_failed : AddressError
  unsupported_version : ℤ → AddressError
  driver_required connection_required connection_suffix : AddressError
  unsupported_value_type : Text → AddressError
  invalid_config : AddressError
  driver_config_failed : Text → AddressError

abbrev pub config_suffix : Text
config_suffix = codes ".config"

-- What `ensureJSONEnd` makes of the second `Decode`.
abbrev pub ensure_json_end : Trailing → Check AddressError
ensure_json_end at_end = ok tt
ensure_json_end another_value = err multiple_values
ensure_json_end broken = err finish_failed

check_value_type : ValueType → Check AddressError
check_value_type (other name) = err (unsupported_value_type name)
check_value_type bool = ok tt
check_value_type int64 = ok tt
check_value_type float64 = ok tt
check_value_type string = ok tt

-- `decoder.Decode`, then `ensureJSONEnd`.
abbrev pub decode_all : {A : Type 0} → AddressError → Option (A × Trailing) → Result AddressError A
decode_all e none = err e
decode_all e (some (a, trailing)) = do ensure_json_end trailing; ok a

-- json.Valid is a parameter.
module _ (valid_json : Text → Bool) where
  unfoldable pub validate : Descriptor → Check AddressError
  unfolding check_value_type
  validate d = do
    fail_if (not (d.version ==ℤ current_version)) (unsupported_version d.version)
    fail_if (is_empty (trim_space d.driver)) driver_required
    fail_if (is_empty (trim_space d.connection)) connection_required
    fail_if (not (has_suffix d.connection config_suffix)) connection_suffix
    check_value_type d.value_type
    fail_if (is_empty (trim_space d.config) || not (valid_json d.config)) invalid_config

  unfoldable pub validate_connection : Connection → Check AddressError
  validate_connection c = do
    fail_if (not (c.version ==ℤ current_version)) (unsupported_version c.version)
    fail_if (is_empty (trim_space c.driver)) driver_required
    fail_if (is_empty (trim_space c.config) || not (valid_json c.config)) invalid_config

  unfoldable pub parse : Decoder Descriptor → Text → Result AddressError Descriptor
  parse decode value = do d ← decode_all decode_failed (decode value); validate d; ok d

  unfoldable pub parse_connection : Decoder Connection → Text → Result AddressError Connection
  parse_connection decode value = do
    c ← decode_all decode_failed (decode value)
    validate_connection c
    ok c

  unfoldable pub marshal : (Descriptor → Text) → Descriptor → Result AddressError Text
  marshal encode d = do validate d; ok (encode d)

  unfoldable pub marshal_connection : (Connection → Text) → Connection → Result AddressError Text
  marshal_connection encode c = do validate_connection c; ok (encode c)

-- `decodeConfig`: the driver-specific configuration, whose type is the driver's.
unfoldable pub decode_config : {A : Type 0} → Decoder A → Text → Text → Result AddressError A
decode_config decode driver raw = decode_all (driver_config_failed driver) (decode raw)
