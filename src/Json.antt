-- ===== src/Json.antt =====
-- The JSON decoder and encoder that the packages call (encoding/json), as parameters.
-- `decode` is the first `Decode` of a strict decoder together with what the second one meets.
use go_scada.Base.{Text, ◌≡◌, Option, some}

pub data Trailing : Type 0 where
  at_end another_value broken : Trailing

-- A strict decoder into `A`: `none` is a decoding error.
abbrev pub Decoder : Type 0 → Type 0
Decoder A = Text → Option (A × Trailing)

-- The round trip of a value that the program relies on: what `json.Marshal` writes for it decodes to
-- the same value, with nothing behind it.
abbrev pub RoundTrips : {A : Type 0} → Decoder A → (A → Text) → A → Type 0
RoundTrips decode encode a = decode (encode a) ≡ some (a, at_end)
