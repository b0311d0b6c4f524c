-- ===== src/Stream/Values.antt =====
-- stream/client.go: the Go types that a value may have, and their encoding in a telemetry message. The
-- generated message types are modelled by what the code builds and reads.
use go_scada.Base.{
  ℕ, Text, Bool, ℤ, List, Option, none, some, Result, ok, err, ◌≡◌, refl, ◌↔◌, ◌≢◌, ok-injective,
  sym, ap, ◌∙◌,
}

-- The type parameters of the constraint `Value`.
pub data GoType : Type 0 where
  int64 float64 string bool bytes ints floats strings bools : GoType

-- The values of each; float64 by its bits.
abbrev pub ValueOf : GoType → Type 0
ValueOf int64 = ℤ
ValueOf float64 = ℕ
ValueOf string = Text
ValueOf bool = Bool
ValueOf bytes = List ℕ
ValueOf ints = List ℤ
ValueOf floats = List ℕ
ValueOf strings = List Text
ValueOf bools = List Bool

-- The kinds of the protobuf Value.
pub data Kind : Type 0 where
  int_value : ℤ → Kind
  float_value : ℕ → Kind
  string_value : Text → Kind
  bool_value : Bool → Kind
  bytes_value : List ℕ → Kind
  int_array : List ℤ → Kind
  float_array : List ℕ → Kind
  string_array : List Text → Kind
  bool_array : List Bool → Kind

-- encodeValue
unfoldable pub encode_value : (V : GoType) → ValueOf V → Kind
encode_value int64 x = int_value x
encode_value float64 x = float_value x
encode_value string x = string_value x
encode_value bool x = bool_value x
encode_value bytes x = bytes_value x
encode_value ints x = int_array x
encode_value floats x = float_array x
encode_value strings x = string_array x
encode_value bools x = bool_array x

-- A value of type any: its dynamic type and the value.
pub data Any : Type 0 where
  any_of : (V : GoType) → ValueOf V → Any

pub data DecodeError : Type 0 where
  value_missing : DecodeError
  wrong_type : GoType → GoType → DecodeError

-- decodeAny; a value without a kind is missing too.
unfoldable pub decode_any : Option Kind → Result DecodeError Any
decode_any none = err value_missing
decode_any (some (int_value x)) = ok (any_of int64 x)
decode_any (some (float_value x)) = ok (any_of float64 x)
decode_any (some (string_value x)) = ok (any_of string x)
decode_any (some (bool_value x)) = ok (any_of bool x)
decode_any (some (bytes_value x)) = ok (any_of bytes x)
decode_any (some (int_array x)) = ok (any_of ints x)
decode_any (some (float_array x)) = ok (any_of floats x)
decode_any (some (string_array x)) = ok (any_of strings x)
decode_any (some (bool_array x)) = ok (any_of bools x)

-- The type assertion `decoded.(V)`, by the dynamic type.
cast : (W V : GoType) → ValueOf V → Option (ValueOf W)
cast int64 int64 x = some x
cast float64 float64 x = some x
cast string string x = some x
cast bool bool x = some x
cast bytes bytes x = some x
cast ints ints x = some x
cast floats floats x = some x
cast strings strings x = some x
cast bools bools x = some x
cast _ _ x = none

typed : (W V : GoType) → Option (ValueOf W) → Result DecodeError (ValueOf W)
typed W V none = err (wrong_type V W)
typed W V (some x) = ok x

assert_type : (W : GoType) → Result DecodeError Any → Result DecodeError (ValueOf W)
unfolding typed cast
assert_type W (err e) = err e
assert_type W (ok (any_of V x)) = typed W V (cast W V x)

-- decodeValue
unfoldable pub decode_value : (W : GoType) → Option Kind → Result DecodeError (ValueOf W)
unfolding assert_type
decode_value W value = assert_type W (decode_any value)

decode_any-encode_value :
    (V : GoType) (x : ValueOf V) → decode_any (some (encode_value V x)) ≡ ok (any_of V x)
unfolding decode_any encode_value
decode_any-encode_value int64 x = refl
decode_any-encode_value float64 x = refl
decode_any-encode_value string x = refl
decode_any-encode_value bool x = refl
decode_any-encode_value bytes x = refl
decode_any-encode_value ints x = refl
decode_any-encode_value floats x = refl
decode_any-encode_value strings x = refl
decode_any-encode_value bools x = refl

cast-same : (V : GoType) (x : ValueOf V) → cast V V x ≡ some x
unfolding cast
cast-same int64 x = refl
cast-same float64 x = refl
cast-same string x = refl
cast-same bool x = refl
cast-same bytes x = refl
cast-same ints x = refl
cast-same floats x = refl
cast-same strings x = refl
cast-same bools x = refl

-- A type assertion succeeds on its own type only.
cast-some :
    (W V : GoType) (x : ValueOf V) (y : ValueOf W) → cast W V x ≡ some y → any_of V x ≡ any_of W y
unfolding cast
cast-some int64 int64 x y h = cc
cast-some float64 float64 x y h = cc
cast-some string string x y h = cc
cast-some bool bool x y h = cc
cast-some bytes bytes x y h = cc
cast-some ints ints x y h = cc
cast-some floats floats x y h = cc
cast-some strings strings x y h = cc
cast-some bools bools x y h = cc
cast-some W V x y h = absurd cc

cast-other : (W V : GoType) (x : ValueOf V) → W ≢ V → cast W V x ≡ none
unfolding cast
cast-other int64 int64 x h = absurd (h refl)
cast-other float64 float64 x h = absurd (h refl)
cast-other string string x h = absurd (h refl)
cast-other bool bool x h = absurd (h refl)
cast-other bytes bytes x h = absurd (h refl)
cast-other ints ints x h = absurd (h refl)
cast-other floats floats x h = absurd (h refl)
cast-other strings strings x h = absurd (h refl)
cast-other bools bools x h = absurd (h refl)
cast-other W V x h = refl

encode_any : Any → Kind
encode_any (any_of V x) = encode_value V x

decode_any-total : (k : Kind) → (a : Any) × (decode_any (some k) ≡ ok a) × (encode_any a ≡ k)
unfolding decode_any encode_any encode_value
decode_any-total (int_value x) = (any_of int64 x, refl, refl)
decode_any-total (float_value x) = (any_of float64 x, refl, refl)
decode_any-total (string_value x) = (any_of string x, refl, refl)
decode_any-total (bool_value x) = (any_of bool x, refl, refl)
decode_any-total (bytes_value x) = (any_of bytes x, refl, refl)
decode_any-total (int_array x) = (any_of ints x, refl, refl)
decode_any-total (float_array x) = (any_of floats x, refl, refl)
decode_any-total (string_array x) = (any_of strings x, refl, refl)
decode_any-total (bool_array x) = (any_of bools x, refl, refl)

decode_any-ok :
    (o : Option Kind) (V : GoType) (x : ValueOf V)
    → decode_any o ≡ ok (any_of V x)
    → o ≡ some (encode_value V x)
unfolding encode_any decode_any
decode_any-ok none V x h = absurd (missing h)
  where
    missing : decode_any none ≡ ok (any_of V x) → ⊥
    missing e = cc
decode_any-ok (some k) V x h =
    let (a, decoded, encoded) = decode_any-total k in
    let same : a ≡ any_of V x = ok-injective (sym decoded ∙ h) in
    ap some (sym encoded ∙ ap encode_any same)

assert_type-ok :
    (W : GoType) (r : Result DecodeError Any) (y : ValueOf W)
    → assert_type W r ≡ ok y
    → r ≡ ok (any_of W y)
unfolding assert_type typed
assert_type-ok W (err e) y h = absurd cc
assert_type-ok W (ok (any_of V x)) y h = ap ok (cast-some W V x y (typed-ok (cast W V x) h))
  where
    typed-ok : (o : Option (ValueOf W)) → typed W V o ≡ ok y → o ≡ some y
    typed-ok none k = absurd cc
    typed-ok (some z) k = ap some (ok-injective k)

-- decodeValue gives a value of the requested type exactly if the message holds the encoding of that value:
-- what was encoded is decoded, and nothing else is decoded to it.
pub decode_value_iff :
    (W : GoType) (o : Option Kind) (y : ValueOf W)
    → (decode_value W o ≡ ok y) ↔ (o ≡ some (encode_value W y))
unfolding decode_value assert_type typed
decode_value_iff W o y = (
  λ h. decode_any-ok o W y (assert_type-ok W (decode_any o) y h),
  λ e. rw (e, decode_any-encode_value W y, cast-same W y),
)

-- A value that was encoded from one type and is requested as another is rejected with an error that names
-- both.
pub decode_value-encode_value :
    (V W : GoType) (x : ValueOf V)
    → W ≢ V
    → decode_value W (some (encode_value V x)) ≡ err (wrong_type V W)
unfolding decode_value assert_type typed
decode_value-encode_value V W x h = rw (decode_any-encode_value V x, cast-other W V x h)
