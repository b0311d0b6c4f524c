-- ===== src/Stream/Client/Getting.antt =====
-- stream/client.go: Get, GetAny and Create.
use go_scada.Base.{Text, false, pos, [], none, some, Result, ok, err, Check, trim_space, wrap}
use go_scada.Retain.Store.{Payload}
use go_scada.Stream.Values.{
  GoType, int64, float64, string, bool, bytes, ints, floats, strings, bools, ValueOf, Any,
  decode_value, decode_any,
}
use go_scada.Stream.Subjects.{SubjectError, validate_operation}
use go_scada.Stream.Client.{
  Environment, Stream, ClientError, subject_error, value_error, not_found, decode_failed,
  get_payload, set, mark_known,
}

module _ (env : Environment) where
  unfoldable pub decode_payload :
      (V : GoType) → Result ClientError Payload → Result ClientError (ValueOf V)
  decode_payload V (err e) = err e
  decode_payload V (ok data_bytes) = elim (env.unmarshal data_bytes) [
    | none ↦ err decode_failed
    | some message ↦ wrap value_error (decode_value V message.value)
  ]

  unfoldable pub get_full :
      (V : GoType) → Result SubjectError Text → Stream → Result ClientError (ValueOf V) × Stream
  unfolding decode_payload
  get_full V (err e) s = (err (subject_error e), s)
  get_full V (ok full) s = let (r, after) = get_payload env full s in (decode_payload V r, after)

  -- Get
  unfoldable pub get : (V : GoType) → Text → Stream → Result ClientError (ValueOf V) × Stream
  unfolding get_full
  get V subject s = get_full V (validate_operation s.system subject) s

  unfoldable pub decode_payload_any : Result ClientError Payload → Result ClientError Any
  decode_payload_any (err e) = err e
  decode_payload_any (ok data_bytes) = elim (env.unmarshal data_bytes) [
    | none ↦ err decode_failed
    | some message ↦ wrap value_error (decode_any message.value)
  ]

  unfoldable pub get_any_full : Result SubjectError Text → Stream → Result ClientError Any × Stream
  unfolding decode_payload_any
  get_any_full (err e) s = (err (subject_error e), s)
  get_any_full (ok full) s =
      let (r, after) = get_payload env full s in (decode_payload_any r, after)

  -- GetAny
  unfoldable pub get_any : Text → Stream → Result ClientError Any × Stream
  unfolding get_any_full
  get_any subject s = get_any_full (validate_operation s.system subject) s

  -- `var value V`
  abbrev zero_value : (V : GoType) → ValueOf V
  zero_value int64 = pos 0
  zero_value float64 = 0
  zero_value string = []
  zero_value bool = false
  zero_value bytes = []
  zero_value ints = []
  zero_value floats = []
  zero_value strings = []
  zero_value bools = []

  unfoldable pub mark_valid : Result SubjectError Text → Stream → Stream
  mark_valid (err e) s = s
  mark_valid (ok full) s = mark_known full s

  unfoldable pub create_if :
      (V : GoType) → Text → Result ClientError (ValueOf V) × Stream → Check ClientError × Stream
  unfolding mark_valid
  create_if V relative (ok _, s) = (ok tt, mark_valid (validate_operation s.system relative) s)
  create_if V relative (err not_found, s) = set env V relative (zero_value V) s
  create_if V relative (err e, s) = (err e, s)

  -- Create
  unfoldable pub create : (V : GoType) → Text → Stream → Check ClientError × Stream
  unfolding create_if
  create V subject s = create_if V (trim_space subject) (get V (trim_space subject) s)
