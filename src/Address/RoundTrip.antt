-- ===== src/Address/RoundTrip.antt =====
-- Marshalling and parsing of the envelopes in address/descriptor.go.
use go_scada.Base.{
  Text, Bool, true, false, ◌≡◌, ◌≢◌, refl, ok, ◌++◌, is_empty, trim_space, cut_suffix,
  cut_suffix-append, >>-eq_ok, >>=-eq_ok, arith, Option, none, some, ==ℤ_iff,
}
use go_scada.Json.{RoundTrips, Decoder}
use go_scada.Address.{
  Descriptor, Connection, other, validate, validate_connection, parse, parse_connection,
  marshal_connection, current_version, config_suffix, decode_all, decode_failed,
}

module _ (valid_json : Text → Bool) where
  -- The same for the connection envelope.
  pub parse_connection-marshal_connection :
      (decode : Decoder Connection) (encode : Connection → Text) (c : Connection) {value : Text}
      → RoundTrips decode encode c
      → marshal_connection valid_json encode c ≡ ok value
      → parse_connection valid_json decode value ≡ ok c
  unfolding parse_connection marshal_connection
  parse_connection-marshal_connection decode encode c {value} codec h =
      let (checked, written) = >>-eq_ok (validate_connection valid_json c) (ok (encode c)) h in
      ground (arith, checked, written, codec)

  pub parse-validate :
      (decode : Decoder Descriptor) (value : Text) {d : Descriptor}
      → parse valid_json decode value ≡ ok d
      → validate valid_json d ≡ ok tt
  unfolding parse
  parse-validate decode value {d} h =
      let (d', _, rest) = >>=-eq_ok (decode_all decode_failed (decode value)) _ h in
      let (checked, same) = >>-eq_ok (validate valid_json d') (ok d') rest in
      ground (arith, checked, same)

  -- What a validated descriptor's fields satisfy.
  pub record IsValid (d : Descriptor) : Type 0 where
    pub version : d.version ≡ current_version
    pub driver : is_empty (trim_space d.driver) ≡ false
    pub connection : (base : Text) × (d.connection ≡ base ++ config_suffix)
    pub value_type : (name : Text) → d.value_type ≢ other name
    pub config : valid_json d.config ≡ true

  found_suffix :
      (s suffix : Text)
      → (b : Option Text) → cut_suffix s suffix ≡ b
      → ((b ≡ none) → ⊥)
      → (base : Text) × (s ≡ base ++ suffix)
  found_suffix s suffix none e h = absurd (h refl)
  found_suffix s suffix (some base) e h = (base, cut_suffix-append s suffix base e)

  -- A descriptor that Parse accepts, whatever the decoder, has version 1, a driver, a connection that
  -- ends in .config, one of the four value types and a configuration that is JSON.
  pub parse-IsValid :
      (decode : Decoder Descriptor) (value : Text) {d : Descriptor}
      → parse valid_json decode value ≡ ok d
      → IsValid d
  unfolding validate
  parse-IsValid decode value {d} h =
      let checked = parse-validate decode value h in
      record {
        version = ground (arith, checked, ==ℤ_iff d.version current_version);
        driver = ground (arith, checked);
        connection =
            found_suffix d.connection config_suffix (cut_suffix d.connection config_suffix) refl
              (λ e. ground (arith, checked, e));
        value_type = λ name e. ground (arith, checked, e);
        config = ground (arith, checked);
      }
