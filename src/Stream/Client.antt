-- ===== src/Stream/Client.antt =====
-- stream/client.go: publishing and reading values over the bus and the retain service. A published message
-- waits on the wire until the retain service ingests it; what NATS, protobuf and JSON return are parameters.
pub mod Getting
pub mod Listing
pub mod Latest
pub mod Setting
pub mod Reading
pub mod Announcing
use go_scada.Base.{
  ℕ, zero, suc, ◌+◌, ◌/◌, ◌%◌, ◌^◌, Text, Bool, true, false, ◌||◌, pos, List, [], ◌∷◌, ◌++◌, Option,
  none, some, Result, ok, err, Check, codes, is_empty, if◌then◌else◌, trim_space, text_eq, mem_text,
  Dict, lookup, insert, ltb, wrap,
}
use go_scada.Retain.Store.{Store, Payload}
use go_scada.Retain.Server.{Message, Response, payload, get_subject, handle_ingest, handle_get}
use go_scada.Stream.Values.{
  GoType, int64, float64, string, bool, bytes, ints, floats, strings, bools, ValueOf, Kind, Any,
  DecodeError, encode_value, decode_value, decode_any,
}
use go_scada.Stream.Registry.{Created, created_subject, created_of}
use go_scada.Stream.Subjects.{SubjectError, validate_operation, relative_subject}

-- The telemetry message; its quality is always good. Times are nanoseconds after the zero time.
pub record Telemetry : Type 0 where
  pub sequence : ℕ
  pub value : Option Kind
  pub observed_at : Option ℕ
  pub source_id : Text
  pub message_id : Text
  pub expires_at : Option ℕ

pub record Environment : Type 0 where
  -- proto.Marshal, with `none` for an error, and proto.Unmarshal.
  pub marshal : Telemetry → Option Payload
  pub unmarshal : Payload → Option Telemetry
  -- json.Marshal of a created subject.
  pub encode_created : Created → Option Text
  -- Whether a call of Publish, and a request to the retain service, returns without an error.
  pub publishes : ℕ → Bool
  pub answers : ℕ → Bool
  pub now : ℕ → ℕ

-- The client, the messages on their way to the retain service, the oldest first, and its store. `reports`
-- counts the errors given to the error handler.
pub record Stream : Type 0 where
  pub system : Text
  pub source_id : Text
  pub instance_id : ℕ
  pub sequences : Dict ℕ
  pub known : List Text
  pub wire : List Message
  pub store : Store
  pub reports : ℕ
  pub calls : ℕ

pub data ClientError : Type 0 where
  subject_error : SubjectError → ClientError
  marshal_failed publish_failed request_failed not_found decode_failed : ClientError
  value_error : DecodeError → ClientError

abbrev pub value_ttl : ℕ
value_ttl = 10000000000

abbrev pub tick : Stream → Stream
tick s = record s { calls = suc s.calls }

-- `%d` of a number, digit by digit; a number has no more digits than it counts.
unfoldable pub digits_from : ℕ → ℕ → Text → Text
digits_from zero n rest = rest
digits_from (suc fuel) n rest =
    let more = digits_from fuel (n / 10) ((b'0' + n % 10) ∷ rest) in
    if ltb n 10 then (b'0' + n) ∷ rest else more

unfoldable pub decimal : ℕ → Text
unfolding digits_from
decimal n = digits_from (suc n) n []

-- nextSequence: a uint64 for each full subject.
unfoldable pub next_of : Option ℕ → ℕ
next_of none = 1
next_of (some n) = (n + 1) % 2 ^ 64

unfoldable pub next_sequence : Text → Stream → ℕ × Stream
unfolding next_of
next_sequence subject s =
    let n = next_of (lookup subject s.sequences) in
    (n, record s { sequences = insert subject n s.sequences })

-- markKnown
unfoldable pub mark_known : Text → Stream → Stream
mark_known full s = if is_empty full then s else record s { known = full ∷ s.known }

-- The oldest message on the wire reaches the retain service.
unfoldable pub ingest_from : List Message → Stream → Stream
ingest_from [] s = s
ingest_from (m ∷ rest) s = record s { wire = rest; store = handle_ingest m s.store }

unfoldable pub ingest : Stream → Stream
unfolding ingest_from
ingest s = ingest_from s.wire s

-- Everything on the wire reaches the retain service.
unfoldable pub drain_all : List Message → Stream → Stream
drain_all [] s = s
drain_all (_ ∷ rest) s = drain_all rest (ingest s)

unfoldable pub drain : Stream → Stream
drain s = drain_all s.wire s

-- What a response means to getPayloadContext: no data is an empty message.
abbrev pub reply_of : Response → Result ClientError Payload
reply_of Response.not_found = err not_found
reply_of (payload p) = ok p
reply_of _ = ok []

-- The reply of the retain service is read by the store as it is when the request comes.
unfoldable pub request : Text → Stream → Response
request full s =
    handle_get (record { subject = get_subject s.system; reply = codes "_INBOX"; body = full })
      s.store

module _ (env : Environment) where
  -- getPayload
  unfoldable pub get_payload : Text → Stream → Result ClientError Payload × Stream
  get_payload full s =
      (if env.answers s.calls then reply_of (request full s) else err request_failed, tick s)

  abbrev pub is_not_found : Result ClientError Payload → Bool
  is_not_found (err not_found) = true
  is_not_found _ = false

  unfoldable pub announce_relative : Text → Option Text → Stream → Bool × Stream
  announce_relative full none s = (false, s)
  announce_relative full (some relative) s =
      let (r, after) = get_payload full s in
      if text_eq relative created_subject || mem_text full s.known
      then (false, s)
      else (is_not_found r, after)

  -- shouldAnnounce
  unfoldable pub should_announce : Text → Stream → Bool × Stream
  unfolding announce_relative
  should_announce full s =
      if is_empty full
      then (false, s)
      else announce_relative full (relative_subject s.system full) s

  -- newMessage
  unfoldable pub new_message : Text → Kind → Stream → Telemetry × Stream
  unfolding decimal
  new_message full kind s =
      let (sequence, after) = next_sequence full s in
      let now = env.now s.calls in
      (
        record {
          sequence = sequence;
          value = some kind;
          observed_at = some now;
          source_id = s.source_id;
          message_id =
              s.source_id
              ++ codes "-"
              ++ decimal s.instance_id
              ++ codes "-"
              ++ full
              ++ codes "-"
              ++ decimal sequence;
          expires_at = some (now + value_ttl);
        },
        tick after,
      )

  unfoldable pub publish_data : Text → Option Payload → Stream → Check ClientError × Stream
  publish_data full none s = (err marshal_failed, s)
  publish_data full (some data_bytes) s =
      if env.publishes s.calls
      then (
        ok tt,
        mark_known full (record (tick s) {
          wire = s.wire ++ (record { subject = full; reply = []; body = data_bytes }) ∷ [];
        }),
      )
      else (err publish_failed, tick s)

  -- Set from newMessage to markKnown.
  unfoldable pub publish : Text → Kind → Stream → Check ClientError × Stream
  unfolding publish_data
  publish full kind s =
      let (message, after) = new_message full kind s in
      publish_data full (env.marshal message) after

  -- An error of announceCreated is reported only.
  unfoldable pub reported : Check ClientError × Stream → Stream
  reported (ok _, s) = s
  reported (err e, s) = record s { reports = suc s.reports }

  unfoldable pub announce_payload :
      (Text → Kind → Stream → Check ClientError × Stream) → Option Text → Stream → Stream
  unfolding reported
  announce_payload set none s = record s { reports = suc s.reports }
  announce_payload set (some text) s = reported (set created_subject (encode_value string text) s)

  -- announceCreated, with Set as a function.
  unfoldable pub announce_created :
      (Text → Kind → Stream → Check ClientError × Stream) → Text → Stream → Stream
  unfolding announce_payload
  announce_created set relative s =
      if is_empty relative || text_eq relative created_subject
      then s
      else announce_payload set (env.encode_created (created_of relative)) s

  -- The end of Set: the first write of a subject is announced.
  unfoldable pub after_publish :
      (Text → Kind → Stream → Check ClientError × Stream)
      → Bool
      → Text
      → Check ClientError × Stream
      → Check ClientError × Stream
  unfolding announce_created
  after_publish set announce relative (err e, s) = (err e, s)
  after_publish set announce relative (ok _, s) =
      (ok tt, if announce then announce_created set relative s else s)

  unfoldable pub set_full :
      (Text → Kind → Stream → Check ClientError × Stream)
      → Text
      → Kind
      → Result SubjectError Text
      → Stream
      → Check ClientError × Stream
  unfolding after_publish
  set_full set relative kind (err e) s = (err (subject_error e), s)
  set_full set relative kind (ok full) s =
      let (announce, after) = should_announce full s in
      after_publish set announce relative (publish full kind after)

  -- Set of an encoded value, with the calls of Set within Set to a depth.
  unfoldable pub set_kind : ℕ → Text → Kind → Stream → Check ClientError × Stream
  unfolding set_full
  set_kind zero subject kind s = (ok tt, s)
  set_kind (suc depth) subject kind s =
      set_full (set_kind depth) (trim_space subject) kind (validate_operation s.system subject) s

  -- Set: the announcement is a Set that announces nothing.
  unfoldable pub set : (V : GoType) → Text → ValueOf V → Stream → Check ClientError × Stream
  set V subject x s = set_kind 2 subject (encode_value V x) s
