-- ===== src/Modbus/Config.antt =====
-- modbus/config.go: the driver's configuration of connections and points, and their validation.
pub mod Points
pub mod Examples
use go_scada.Base.{
  ℕ, ◌+◌, ◌^◌, Text, Bool, true, false, not, ◌&&◌, ◌||◌, ℤ, pos, ◌<ℤ◌, Option, none, some, Result,
  ok, err, fail_if, ◌>>=◌, ◌>>◌, Check, codes, is_empty, trim_space, text_eq, ltb, if◌then◌else◌,
}
use go_scada.Json.{Decoder}
use go_scada.Address
use go_scada.Address.{ValueType, Descriptor, AddressError, decode_config}

-- Go's string types with their constants; `other` is any other string.
pub data Register : Type 0 where
  coil discrete_input input holding : Register
  other_register : Text → Register

pub data Encoding : Type 0 where
  bool int16 uint16 int32 uint32 float32 float64 : Encoding
  other_encoding : Text → Encoding

-- `unset` is the empty string, which the driver reads as `big`.
pub data ByteOrder : Type 0 where
  unset big little : ByteOrder
  other_order : Text → ByteOrder

pub record ConnectionConfig : Type 0 where
  pub url : Text
  pub unit_id : ℕ  -- uint8
  pub byte_order : ByteOrder
  pub word_order : ByteOrder
  pub timeout : Text
  pub poll_interval : Text

pub record Connection : Type 0 where
  pub url : Text
  pub unit_id : ℕ
  pub byte_order : ByteOrder
  pub word_order : ByteOrder
  pub timeout : ℤ
  pub poll_interval : ℤ

pub record AddressConfig : Type 0 where
  pub register : Register
  pub address : ℕ  -- uint16
  pub encoding : Encoding

pub record Point : Type 0 where
  pub connection_subject : Text
  pub url : Text
  pub unit_id : ℕ
  pub register : Register
  pub address : ℕ
  pub encoding : Encoding
  pub byte_order : ByteOrder
  pub word_order : ByteOrder
  pub timeout : ℤ
  pub poll_interval : ℤ
  pub value_type : ValueType

-- One constructor for each error of the file; `address_error` is one that the address package returns.
pub data ConfigError : Type 0 where
  not_modbus : Text → ConfigError
  address_error : AddressError → ConfigError
  invalid_url : Text → ConfigError
  unsupported_byte_order unsupported_word_order : ByteOrder → ConfigError
  duration_required duration_unparsed duration_not_positive : Text → ConfigError
  requires_bool : Register → ConfigError
  encoding_not_supported : Register → Encoding → ConfigError
  unsupported_register : Text → ConfigError
  wrong_value_type : Encoding → ConfigError
  outside_register_range : ℕ → Encoding → ConfigError

-- An error of the address package, returned as it is.
from_address : {A : Type 0} → Result AddressError A → Result ConfigError A
from_address (ok a) = ok a
from_address (err e) = err (address_error e)

valid_order : ByteOrder → Bool
valid_order big = true
valid_order little = true
valid_order unset = false
valid_order (other_order _) = false

-- `if order == "" { order = OrderBig }`
default_order : ByteOrder → ByteOrder
default_order unset = big
default_order big = big
default_order little = little
default_order (other_order name) = other_order name

-- The empty string, for an encoding that is none of the constants.
unfoldable pub value_type_for_encoding : Encoding → ValueType
value_type_for_encoding bool = ValueType.bool
value_type_for_encoding int16 = ValueType.int64
value_type_for_encoding uint16 = ValueType.int64
value_type_for_encoding int32 = ValueType.int64
value_type_for_encoding uint32 = ValueType.int64
value_type_for_encoding float32 = ValueType.float64
value_type_for_encoding float64 = ValueType.float64
value_type_for_encoding (other_encoding _) = ValueType.other (codes "")

unfoldable pub register_count : Encoding → ℕ
register_count int32 = 2
register_count uint32 = 2
register_count float32 = 2
register_count float64 = 4
register_count bool = 1
register_count int16 = 1
register_count uint16 = 1
register_count (other_encoding _) = 1

-- The `switch config.Register` of ParsePoint.
check_encoding : Register → Encoding → Check ConfigError
check_encoding coil bool = ok tt
check_encoding coil _ = err (requires_bool coil)
check_encoding discrete_input bool = ok tt
check_encoding discrete_input _ = err (requires_bool discrete_input)
check_encoding (other_register name) _ = err (unsupported_register name)
check_encoding register bool = err (encoding_not_supported register bool)
check_encoding register (other_encoding name) =
    err (encoding_not_supported register (other_encoding name))
check_encoding register _ = ok tt

-- `!=` on value types.
same_value_type : ValueType → ValueType → Bool
same_value_type ValueType.bool ValueType.bool = true
same_value_type ValueType.int64 ValueType.int64 = true
same_value_type ValueType.float64 ValueType.float64 = true
same_value_type ValueType.string ValueType.string = true
same_value_type (ValueType.other s) (ValueType.other t) = text_eq s t
same_value_type _ _ = false

-- ParsePoint from the decoded configuration on.
point_from : Descriptor → Connection → AddressConfig → Result ConfigError Point
point_from d connection config = do
  check_encoding config.register config.encoding
  fail_if (not (same_value_type d.value_type (value_type_for_encoding config.encoding)))
      (wrong_value_type config.encoding)
  fail_if (ltb (2 ^ 16) (config.address + register_count config.encoding))
      (outside_register_range config.address config.encoding)
  ok (record {
    connection_subject = d.connection;
    url = connection.url;
    unit_id = connection.unit_id;
    register = config.register;
    address = config.address;
    encoding = config.encoding;
    byte_order = connection.byte_order;
    word_order = connection.word_order;
    timeout = connection.timeout;
    poll_interval = connection.poll_interval;
    value_type = d.value_type;
  })

unfoldable pub parse_point :
    Decoder AddressConfig → Descriptor → Connection → Result ConfigError Point
unfolding from_address point_from check_encoding same_value_type
parse_point decode d connection = do
  fail_if (not (text_eq d.driver (codes "modbus"))) (not_modbus d.driver)
  config ← from_address (decode_config decode d.driver d.config)
  point_from d connection config

-- time.ParseDuration (nanoseconds) and url.Parse (scheme and host) are parameters.
module _ (parse_duration : Text → Option ℤ) (parse_url : Text → Option (Text × Text)) where
  parsed_duration : Text → Option ℤ → Result ConfigError ℤ
  parsed_duration name none = err (duration_unparsed name)
  parsed_duration name (some duration) =
      if pos 0 <ℤ duration then ok duration else err (duration_not_positive name)

  parse_positive_duration : Text → Text → Result ConfigError ℤ
  unfolding parsed_duration
  parse_positive_duration name value = do
    fail_if (is_empty (trim_space value)) (duration_required name)
    parsed_duration name (parse_duration (trim_space value))

  -- `err != nil || parsedURL.Scheme != "tcp" || parsedURL.Host == ""`
  url_refused : Option (Text × Text) → Bool
  url_refused none = true
  url_refused (some (scheme, host)) = not (text_eq scheme (codes "tcp")) || is_empty host

  unfoldable pub parse_connection :
      Decoder ConnectionConfig → Address.Connection → Result ConfigError Connection
  unfolding from_address url_refused valid_order default_order parse_positive_duration
  parse_connection decode d = do
    fail_if (not (text_eq d.driver (codes "modbus"))) (not_modbus d.driver)
    config ← from_address (decode_config decode d.driver d.config)
    let url : Text = trim_space config.url
    fail_if (url_refused (parse_url url)) (invalid_url url)
    let byte_order : ByteOrder = default_order config.byte_order
    let word_order : ByteOrder = default_order config.word_order
    fail_if (not (valid_order byte_order)) (unsupported_byte_order byte_order)
    fail_if (not (valid_order word_order)) (unsupported_word_order word_order)
    timeout ← parse_positive_duration (codes "timeout") config.timeout
    poll_interval ← parse_positive_duration (codes "poll_interval") config.poll_interval
    ok (record {
      url = url;
      unit_id = config.unit_id;
      byte_order = byte_order;
      word_order = word_order;
      timeout = timeout;
      poll_interval = poll_interval;
    })
