-- ===== src/Stream/Examples.antt =====
-- Tests of the stream client, and its theorems at a concrete client. Messages with a Boolean or one letter,
-- from a source of one letter, are the ones that can be encoded.
use go_scada.Base.{
  zero, ℕ, suc, Text, true, false, List, [], ◌∷◌, Option, none, some, ok, err, codes, ◌≡◌, ◌≢◌, ◌↔◌,
  refl, ap, sym, length, trim_space, cut_prefix, text_eq, mem_text, lookup, insert, cut_suffix,
  sort_by, remove, text_lt,
}
use go_scada.Retain.Store.{Payload, open_store, subjects}
use go_scada.Stream.Values.{
  GoType, bool, int64, Kind, bool_value, string_value, encode_value, decode_value, wrong_type,
  decode_value_iff, decode_value-encode_value, decode_any,
}
use go_scada.Stream.Client.{
  Telemetry, Environment, Stream, set, set_kind, drain, value_error, publish, new_message,
  should_announce, get_payload,
}
use go_scada.Stream.Client.Getting.{get}
use go_scada.Stream.Client.Latest.{MarshalsBack}
use go_scada.Stream.Client.Listing.{Encoding, list_subjects, Lists, list_subjects-Lists}
use go_scada.Stream.Client.Setting.{Effect, set_refines}
use go_scada.Stream.Client.Reading.{set-get}
use go_scada.Stream.Client.Announcing.{set_kind_ends}
use go_scada.Stream.Subscribe.{
  observed_of, deliver_value, new_subscription, accept, Filter, found, on_message, handler_subject,
  catch_up,
}
use go_scada.Stream.Subjects.{validate_operation, relative_subject}
use go_scada.Stream.Subscribe.Events.{Event, live, caught, handle_events}
use go_scada.Retain.Server.{handle_list, list_matched}

abbrev write_fields : ℕ → Option Kind → Option ℕ → Text → Text → Option ℕ → Option Payload
write_fields n (some (bool_value false)) (some t) (c ∷ []) id (some e) =
    some (n ∷ 0 ∷ t ∷ c ∷ e ∷ id)
write_fields n (some (bool_value true)) (some t) (c ∷ []) id (some e) =
    some (n ∷ 1 ∷ t ∷ c ∷ e ∷ id)
write_fields n (some (string_value (x ∷ []))) (some t) (c ∷ []) id (some e) =
    some (n ∷ suc (suc x) ∷ t ∷ c ∷ e ∷ id)
write_fields _ _ _ _ _ _ = none

abbrev write : Telemetry → Option Payload
write m = write_fields m.sequence m.value m.observed_at m.source_id m.message_id m.expires_at

abbrev kind_of : ℕ → Kind
kind_of zero = bool_value false
kind_of (suc zero) = bool_value true
kind_of (suc (suc x)) = string_value (x ∷ [])

abbrev read : Payload → Option Telemetry
read (n ∷ k ∷ t ∷ c ∷ e ∷ id) = some (record {
  sequence = n;
  value = some (kind_of k);
  observed_at = some t;
  source_id = c ∷ [];
  message_id = id;
  expires_at = some e;
})
read _ = none

abbrev payload_in : Option Payload → Payload
payload_in none = []
payload_in (some p) = p

abbrev time_in : Option Telemetry → ℕ
time_in none = 0
time_in (some m) = observed_of m.observed_at

read-write_fields :
    (n : ℕ) (v : Option Kind) (o : Option ℕ) (source id : Text) (e : Option ℕ) (p : Payload)
    → write_fields n v o source id e ≡ some p
    → read p
      ≡ some (record {
        sequence = n;
        value = v;
        observed_at = o;
        source_id = source;
        message_id = id;
        expires_at = e;
      })
read-write_fields n (some (bool_value false)) (some t) (c ∷ []) id (some e) p h =
    rw (sym (ap payload_in h)) refl
read-write_fields n (some (bool_value true)) (some t) (c ∷ []) id (some e) p h =
    rw (sym (ap payload_in h)) refl
read-write_fields n (some (string_value (x ∷ []))) (some t) (c ∷ []) id (some e) p h =
    rw (sym (ap payload_in h)) refl
read-write_fields n v o source id e p h = absurd cc

abbrev env : Environment
env = record {
  marshal = write;
  unmarshal = read;
  encode_created = λ _. some (codes "c");
  publishes = λ _. true;
  answers = λ _. true;
  now = λ call. suc call;
}

env-MarshalsBack : MarshalsBack env
env-MarshalsBack m =
    read-write_fields m.sequence m.value m.observed_at m.source_id m.message_id m.expires_at

abbrev client : Stream
client = record {
  system = codes "p";
  source_id = codes "S";
  instance_id = 7;
  sequences = [];
  known = [];
  wire = [];
  store = open_store [];
  reports = 0;
  calls = 0;
}

decode_value_iff_example :
    (decode_value bool (some (bool_value true)) ≡ ok true)
    ↔ (◌≡◌ {A = Option Kind} (some (bool_value true)) (some (encode_value bool true)))
decode_value_iff_example = decode_value_iff bool (some (bool_value true)) true

int64-apart : int64 ≢ bool
int64-apart e = cc

decode_value-encode_value_example :
    decode_value int64 (some (encode_value bool true)) ≡ err (wrong_type bool int64)
decode_value-encode_value_example = decode_value-encode_value bool int64 true int64-apart

set_refines_example :
    Effect env
      (trim_space (codes "on"))
      (encode_value bool true)
      client
      (set env bool (codes "on") true client)
set_refines_example = set_refines env bool (codes "on") true client env-MarshalsBack

set_works : (set env bool (codes "on") true client).0 ≡ ok tt
unfolding set set_kind validate_operation trim_space publish new_message encode_value
    should_announce relative_subject cut_prefix text_eq mem_text get_payload
set_works = refl

set-get_example :
    ((get env bool (codes "on") (drain (set env bool (codes "on") true client).1)).0 ≡ ok true)
    × ((W : GoType)
        → W ≢ bool
        → (get env W (codes "on") (drain (set env bool (codes "on") true client).1)).0
          ≡ err (value_error (wrong_type bool W)))
set-get_example = set-get env bool (codes "on") true client env-MarshalsBack set_works refl

set_kind_ends_example :
    set_kind env 5 (codes "on") (bool_value true) client
    ≡ set_kind env 2 (codes "on") (bool_value true) client
set_kind_ends_example = set_kind_ends env 3 (codes "on") (bool_value true) client

-- A message whose time of observation is not the zero time.
abbrev read_later : Payload → Option Telemetry
read_later [] = none
read_later (t ∷ id) = some (record {
  sequence = 1;
  value = some (bool_value true);
  observed_at = some (suc t);
  source_id = codes "S";
  message_id = id;
  expires_at = none;
})

abbrev subscriber : go_scada.Stream.Subscribe.Environment bool
subscriber = record { unmarshal = read_later; handles = λ _ _. true }

abbrev by_suffix_on : Filter
by_suffix_on = Filter.by_suffix (codes "on")

-- A live value, then the older one that is retained, a value for another subject, the live value again, and
-- a newer one.
abbrev events : List Event
events =
    live (codes "p.on") (5 ∷ codes "b")
    ∷ caught (codes "p.on") (codes "on") (found (4 ∷ codes "a"))
    ∷ live (codes "p.x") (7 ∷ codes "d")
    ∷ live (codes "p.on") (5 ∷ codes "b")
    ∷ live (codes "p.on") (6 ∷ codes "c")
    ∷ []

handled_twice :
    length
      (handle_events bool subscriber
        (codes "p")
        by_suffix_on
        events
        (new_subscription bool)).handled
    ≡ 2
unfolding handle_events on_message handler_subject relative_subject cut_prefix cut_suffix
    deliver_value accept lookup catch_up decode_value decode_any insert
handled_twice = refl

-- A request by its suffix, after a letter.
abbrev json : Encoding
json = record {
  encode = λ request. some (b'S' ∷ request.suffix);
  decode =
      λ body. elim body [ [] ↦ none | _ ∷ suffix ↦ some (record { suffix = suffix; prefix = [] }) ];
}

abbrev full_client : Stream
full_client = record client {
  store =
      open_store (
        (codes "p.b.on", codes "1")
        ∷ (codes "p.off", codes "2")
        ∷ (codes "p.a.on", codes "3")
        ∷ []);
}

lists_on :
    (list_subjects env json (codes " on") full_client).0 ≡ ok (codes "a.on" ∷ codes "b.on" ∷ [])
unfolding list_subjects handle_list sort_by list_matched subjects open_store insert cut_prefix
    trim_space cut_suffix remove text_lt
lists_on = refl

list_subjects-Lists_example :
    Lists env json
      (record { suffix = trim_space (codes " on"); prefix = [] })
      full_client
      (list_subjects env json (codes " on") full_client).0
unfolding trim_space
list_subjects-Lists_example =
    list_subjects-Lists env json (codes " on") (codes "Son") full_client refl refl refl refl
