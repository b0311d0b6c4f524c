-- ===== src/Modbus/Config/Points.antt =====
-- What ParsePoint and ParseConnection of modbus/config.go guarantee.
use go_scada.Base.{
  ◌+◌, ◌^◌, ◌≤◌, Text, true, ◌≡◌, ◌≢◌, ◌↔◌, refl, ok, arith, ℤ, pos, ◌<ℤ◌, Option, text_eq,
  text_eq_iff, codes, >>-eq_ok, >>=-eq_ok, not, fail_if, sym, subst, Result, ◌⊎◌,
}
use go_scada.Json.{Decoder}
use go_scada.Address
use go_scada.Address.{ValueType, Descriptor, decode_config, AddressError}
use go_scada.Modbus.Config.{
  Register, coil, discrete_input, input, holding, Encoding, bool, big, little, AddressConfig,
  ConnectionConfig, Connection, Point, parse_point, parse_connection, value_type_for_encoding,
  register_count, check_encoding, same_value_type, from_address, point_from,
}

-- The registers and encodings that go together.
abbrev pub Fits : Register → Encoding → Type 0
Fits coil e = e ≡ bool
Fits discrete_input e = e ≡ bool
Fits input e = (e ≢ bool) × ((name : Text) → e ≢ Encoding.other_encoding name)
Fits holding e = (e ≢ bool) × ((name : Text) → e ≢ Encoding.other_encoding name)
Fits (Register.other_register name) e = ⊥

pub record IsPollable (p : Point) : Type 0 where
  pub fits : Fits p.register p.encoding
  pub typed : p.value_type ≡ value_type_for_encoding p.encoding
  pub in_range : p.address + register_count p.encoding ≤ 2 ^ 16

check_encoding-Fits : (r : Register) (e : Encoding) → check_encoding r e ≡ ok tt → Fits r e
unfolding check_encoding
check_encoding-Fits coil e h = ground arith
check_encoding-Fits discrete_input e h = ground arith
check_encoding-Fits input e h = (λ k. ground arith, λ name k. ground arith)
check_encoding-Fits holding e h = (λ k. ground arith, λ name k. ground arith)
check_encoding-Fits (Register.other_register name) e h = ground arith

Fits-check_encoding : (r : Register) (e : Encoding) → Fits r e → check_encoding r e ≡ ok tt
unfolding check_encoding
Fits-check_encoding coil e h = ground arith
Fits-check_encoding discrete_input e h = ground arith
Fits-check_encoding input (Encoding.other_encoding name) h = absurd (h.1 name refl)
Fits-check_encoding input bool h = absurd (h.0 refl)
Fits-check_encoding input _ h = refl
Fits-check_encoding holding (Encoding.other_encoding name) h = absurd (h.1 name refl)
Fits-check_encoding holding bool h = absurd (h.0 refl)
Fits-check_encoding holding _ h = refl
Fits-check_encoding (Register.other_register name) e h = absurd h

same_value_type_iff : (a b : ValueType) → (same_value_type a b ≡ true) ↔ (a ≡ b)
unfolding same_value_type
same_value_type_iff (ValueType.other s) (ValueType.other t) = ground (arith, text_eq_iff s t)
same_value_type_iff a b = ground arith

-- The point that ParsePoint builds from an accepted configuration.
abbrev pub point_of : Descriptor → Connection → AddressConfig → Point
point_of d c config = record {
  connection_subject = d.connection;
  url = c.url;
  unit_id = c.unit_id;
  register = config.register;
  address = config.address;
  encoding = config.encoding;
  byte_order = c.byte_order;
  word_order = c.word_order;
  timeout = c.timeout;
  poll_interval = c.poll_interval;
  value_type = d.value_type;
}

point_from-IsPollable :
    (d : Descriptor) (c : Connection) (config : AddressConfig) {p : Point}
    → point_from d c config ≡ ok p
    → (p ≡ point_of d c config) × IsPollable (point_of d c config)
unfolding point_from
point_from-IsPollable d c config {p} h =
    let typed = same_value_type_iff d.value_type (value_type_for_encoding config.encoding) in
    (
      ground arith,
      record {
        fits = check_encoding-Fits config.register config.encoding (ground arith);
        typed = ground (arith, typed);
        in_range = ground arith;
      },
    )

IsPollable-point_from :
    (d : Descriptor) (c : Connection) (config : AddressConfig)
    → IsPollable (point_of d c config)
    → point_from d c config ≡ ok (point_of d c config)
unfolding point_from
IsPollable-point_from d c config v = ground (
  arith,
  v.typed,
  v.in_range,
  Fits-check_encoding config.register config.encoding v.fits,
  same_value_type_iff d.value_type (value_type_for_encoding config.encoding),
)

from_address-eq_ok :
    {A : Type 0} (r : Result AddressError A) {a : A} → from_address r ≡ ok a → r ≡ ok a
unfolding from_address
from_address-eq_ok r h = ground arith

parse_point_sound :
    (decode : Decoder AddressConfig) (d : Descriptor) (c : Connection) {p : Point}
    → parse_point decode d c ≡ ok p
    → (d.driver ≡ codes "modbus")
      × (config : AddressConfig) × (decode_config decode d.driver d.config ≡ ok config)
      × (p ≡ point_of d c config)
      × IsPollable p
unfolding parse_point
parse_point_sound decode d c {p} h =
    let (driver, h1) = >>-eq_ok (fail_if (not (text_eq d.driver (codes "modbus"))) _) _ h in
    let (config, decoded, h2) =
      >>=-eq_ok (from_address (decode_config decode d.driver d.config)) (point_from d c) h1 in
    let (same, pollable) = point_from-IsPollable d c config h2 in
    (
      ground (arith, driver, text_eq_iff d.driver (codes "modbus")),
      config,
      from_address-eq_ok _ decoded,
      same,
      subst IsPollable (sym same) pollable,
    )

-- ParsePoint returns a point exactly when the driver is modbus and the driver configuration decodes to
-- one for which the point is pollable: its encoding fits its register table, its value type is the
-- encoding's, and its registers end at or below 65536. The point then joins the descriptor, the
-- configuration and the connection.
pub parse_point_iff :
    (decode : Decoder AddressConfig) (d : Descriptor) (c : Connection) (p : Point)
    → (parse_point decode d c ≡ ok p) ↔ (
        (d.driver ≡ codes "modbus")
        × (config : AddressConfig) × (decode_config decode d.driver d.config ≡ ok config)
        × (p ≡ point_of d c config)
        × IsPollable p)
unfolding parse_point from_address
parse_point_iff decode d c p = (
  parse_point_sound decode d c,
  λ (driver, config, decoded, same, pollable). ground (
    arith,
    decoded,
    same,
    text_eq_iff d.driver (codes "modbus"),
    IsPollable-point_from d c config (subst IsPollable same pollable),
  ),
)

-- A connection that ParseConnection returns has orders that are `big` or `little`, and a timeout and a
-- poll interval that are positive.
pub parse_connection_orders :
    (parse_duration : Text → Option ℤ) (parse_url : Text → Option (Text × Text))
    (decode : Decoder ConnectionConfig) (d : Address.Connection) {c : Connection}
    → parse_connection parse_duration parse_url decode d ≡ ok c
    → ((c.byte_order ≡ big) ⊎ (c.byte_order ≡ little))
      × ((c.word_order ≡ big) ⊎ (c.word_order ≡ little))
      × ((pos 0 <ℤ c.timeout) ≡ true)
      × ((pos 0 <ℤ c.poll_interval) ≡ true)
unfolding parse_connection
parse_connection_orders parse_duration parse_url decode d {c} h = ground arith
