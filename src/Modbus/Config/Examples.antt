-- ===== src/Modbus/Config/Examples.antt =====
-- Tests of the Modbus configuration, and its theorems at concrete inputs.
use go_scada.Base.{
  ℕ, Text, true, false, ◌≡◌, ◌⊎◌, ◌<ℤ◌, refl, ℤ, pos, Option, some, ok, err, codes, text_eq,
  if◌then◌else◌, trim_space,
}
use go_scada.Json.{at_end, Decoder}
use go_scada.Address
use go_scada.Address.{ValueType, Descriptor, current_version, decode_config}
use go_scada.Modbus.Config.{
  holding, float32, unset, big, little, AddressConfig, ConnectionConfig, Connection, Point,
  wrong_value_type, outside_register_range, parse_point, parse_connection, from_address, point_from,
  check_encoding, same_value_type, value_type_for_encoding, register_count,
}
use go_scada.Modbus.Config.Points.{IsPollable, point_of, parse_point_iff, parse_connection_orders}

abbrev pub descriptor : Descriptor
descriptor = record {
  version = current_version;
  driver = codes "modbus";
  value_type = ValueType.float64;
  enabled = true;
  connection = codes "line1.config";
  publish_on_change = false;
  config = codes "float at 100";
}

abbrev pub connection : Connection
connection = record {
  url = codes "tcp://plc:502";
  unit_id = 1;
  byte_order = big;
  word_order = little;
  timeout = pos 1000;
  poll_interval = pos 500;
}

abbrev pub float_at : ℕ → AddressConfig
float_at a = record { register = holding; address = a; encoding = float32 }

abbrev decode : Decoder AddressConfig
decode raw =
    if text_eq raw (codes "float at 100")
    then some (float_at 100, at_end)
    else some (float_at 65535, at_end)

abbrev point : Point
point = point_of descriptor connection (float_at 100)

parsed : parse_point decode descriptor connection ≡ ok point
unfolding parse_point text_eq decode_config from_address point_from check_encoding same_value_type
    value_type_for_encoding register_count
parsed = refl

parse_point_iff_example :
    (descriptor.driver ≡ codes "modbus")
    × (config : AddressConfig) × (decode_config decode descriptor.driver descriptor.config
        ≡ ok config)
    × (point ≡ point_of descriptor connection config)
    × IsPollable point
parse_point_iff_example = (parse_point_iff decode descriptor connection point).0 parsed

past_the_end :
    parse_point decode (record descriptor { config = codes "float at the end" }) connection
    ≡ err (outside_register_range 65535 float32)
unfolding parse_point text_eq decode_config from_address point_from check_encoding same_value_type
    value_type_for_encoding register_count
past_the_end = refl

not_an_integer :
    parse_point decode (record descriptor { value_type = ValueType.int64 }) connection
    ≡ err (wrong_value_type float32)
unfolding parse_point text_eq decode_config from_address point_from check_encoding same_value_type
    value_type_for_encoding
not_an_integer = refl

abbrev connection_config : ConnectionConfig
connection_config = record {
  url = codes " tcp://plc:502";
  unit_id = 1;
  byte_order = unset;
  word_order = little;
  timeout = codes "1s";
  poll_interval = codes "500ms";
}

abbrev durations : Text → Option ℤ
durations value = if text_eq value (codes "1s") then some (pos 1000) else some (pos 500)

abbrev urls : Text → Option (Text × Text)
urls value = some (codes "tcp", codes "plc:502")

abbrev envelope : Address.Connection
envelope = record {
  version = current_version;
  driver = codes "modbus";
  enabled = true;
  config = codes "line 1";
}

abbrev decode_connection : Decoder ConnectionConfig
decode_connection raw = some (connection_config, at_end)

connected : parse_connection durations urls decode_connection envelope ≡ ok connection
unfolding parse_connection text_eq trim_space decode_config
connected = refl

parse_connection_orders_example :
    ((connection.byte_order ≡ big) ⊎ (connection.byte_order ≡ little))
    × ((connection.word_order ≡ big) ⊎ (connection.word_order ≡ little))
    × ((pos 0 <ℤ connection.timeout) ≡ true)
    × ((pos 0 <ℤ connection.poll_interval) ≡ true)
parse_connection_orders_example =
    parse_connection_orders durations urls decode_connection envelope connected
