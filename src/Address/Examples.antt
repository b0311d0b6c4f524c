-- ===== src/Address/Examples.antt =====
-- Tests of the address envelopes, and the theorems at concrete inputs.
use go_scada.Base.{
  Text, Bool, true, ◌≡◌, refl, none, some, ok, err, codes, text_eq, if◌then◌else◌, trim_space,
  cut_suffix,
}
use go_scada.Json.{at_end, another_value, Decoder}
use go_scada.Address.{
  ValueType, Descriptor, Connection, current_version, multiple_values, connection_suffix, parse,
  marshal, parse_connection, marshal_connection, validate, validate_connection,
}
use go_scada.Address.RoundTrip.{IsValid, parse_connection-marshal_connection, parse-IsValid}

abbrev accept : Text → Bool
accept _ = true

abbrev sample : Descriptor
sample = record {
  version = current_version;
  driver = codes "modbus";
  value_type = ValueType.float64;
  enabled = true;
  connection = codes "Modbus.Line1.config";
  publish_on_change = true;
  config = codes "{}";
}

abbrev encode : Descriptor → Text
encode d = codes "sample"

-- A decoder that knows one text, and one text with a second value behind it.
abbrev decode : Decoder Descriptor
decode value =
    if text_eq value (codes "sample")
    then some (sample, at_end)
    else if text_eq value (codes "twice")
    then some (sample, another_value)
    else none

parsed : parse accept decode (codes "sample") ≡ ok sample
unfolding parse trim_space cut_suffix text_eq validate
parsed = refl

parse-IsValid_example : IsValid accept sample
parse-IsValid_example = parse-IsValid accept decode (codes "sample") parsed

second_value : parse accept decode (codes "twice") ≡ err multiple_values
unfolding parse text_eq
second_value = refl

abbrev wrong_suffix : Descriptor
wrong_suffix = record sample { connection = codes "Modbus.Line1" }

refused_suffix : marshal accept encode wrong_suffix ≡ err connection_suffix
unfolding marshal trim_space cut_suffix validate
refused_suffix = refl

abbrev sample_connection : Connection
sample_connection = record {
  version = current_version;
  driver = codes "modbus";
  enabled = true;
  config = codes "{}";
}

abbrev encode_connection : Connection → Text
encode_connection c = codes "connection"

abbrev decode_connection : Decoder Connection
decode_connection value =
    if text_eq value (codes "connection") then some (sample_connection, at_end) else none

connection_marshalled :
    marshal_connection accept encode_connection sample_connection ≡ ok (codes "connection")
unfolding marshal_connection trim_space validate_connection
connection_marshalled = refl

connection_decoded :
    decode_connection (encode_connection sample_connection) ≡ some (sample_connection, at_end)
unfolding text_eq
connection_decoded = refl

parse_connection-marshal_connection_example :
    parse_connection accept decode_connection (codes "connection") ≡ ok sample_connection
parse_connection-marshal_connection_example =
    parse_connection-marshal_connection accept decode_connection encode_connection sample_connection
      connection_decoded connection_marshalled
