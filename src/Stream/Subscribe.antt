-- ===== src/Stream/Subscribe.antt =====
-- stream/subscribe.go: the delivery of live and retained messages to a handler. A delivery is one step: a
-- message that NATS delivers, or a reply of the catch-up.
pub mod Events
pub mod Ordering
use go_scada.Base.{
  ℕ, suc, Text, Bool, true, false, not, ◌&&◌, ◌||◌, List, [], ◌∷◌, ◌++◌, Option, none, some, Result,
  ok, err, is_empty, if◌then◌else◌, trim_space, text_eq, has_suffix, has_prefix, Dict, lookup,
  insert, ltb, ◌==◌, wrap, fail_if, ◌>>◌, codes, ◌>>=◌,
}
use go_scada.Retain.Store.{Payload}
use go_scada.Stream.Values.{GoType, ValueOf, DecodeError, decode_value}
use go_scada.Stream.Subjects.{SubjectError, relative_subject, validate_operation, validate_prefix}
use go_scada.Stream.Client.{Telemetry}

-- lastDelivered; 0 is the zero time.
pub record Last : Type 0 where
  pub id : Text
  pub observed : ℕ

abbrev pub observed_of : Option ℕ → ℕ
observed_of none = 0
observed_of (some t) = t

abbrev pub last_of : Telemetry → Last
last_of m = record { id = m.message_id; observed = observed_of m.observed_at }

-- Whether the message is the last one delivered, or an older one.
abbrev pub outdated : Option Last → Last → Bool
outdated none next = false
outdated (some previous) next =
    (not (is_empty next.id) && text_eq previous.id next.id)
    || (not (previous.observed == 0)
        && not (next.observed == 0)
        && ltb next.observed previous.observed)

-- deliveryState.accept
unfoldable pub accept : Text → Telemetry → Dict Last → Bool × Dict Last
accept subject m last =
    if outdated (lookup subject last) (last_of m)
    then (false, last)
    else (true, insert subject (last_of m) last)

-- What a subscription follows: a subject, or the subjects with a suffix or a prefix.
pub data Filter : Type 0 where
  exact : Text → Filter
  by_suffix by_prefix : Text → Filter

-- The subject that the handler is given for a message, if the message is for it.
matching : Bool → Text → Option Text
matching true relative = some relative
matching false relative = none

relative_if : (Text → Bool) → Option Text → Option Text
unfolding matching
relative_if test none = none
relative_if test (some relative) = matching (test relative) relative

unfoldable pub handler_subject : Text → Filter → Text → Option Text
unfolding relative_if
handler_subject system (exact full) subject = some subject
handler_subject system (by_suffix suffix) subject =
    relative_if (λ relative. has_suffix relative suffix) (relative_subject system subject)
handler_subject system (by_prefix prefix) subject =
    relative_if (λ relative. has_prefix relative prefix) (relative_subject system subject)

pub record Environment (V : GoType) : Type 0 where
  -- proto.Unmarshal, and whether the handler returns no error.
  pub unmarshal : Payload → Option Telemetry
  pub handles : Text → ValueOf V → Bool

-- The values that the handler was called with, the oldest first, and the errors reported.
pub record Subscription (V : GoType) : Type 0 where
  pub last : Dict Last
  pub handled : List (Text × ValueOf V)
  pub reports : ℕ

abbrev pub new_subscription : (V : GoType) → Subscription V
new_subscription V = record { last = []; handled = []; reports = 0 }

-- What getPayloadContext returns to the catch-up: a payload, or an error that is ignored or reported.
pub data Reply : Type 0 where
  found : Payload → Reply
  ignored failed : Reply

-- What the list of subjects is: subjects with the replies for them, or an error.
pub data Listing : Type 0 where
  listed : List (Text × Reply) → Listing
  list_ignored list_failed : Listing

module _ (V : GoType) (env : Environment V) where
  report : Subscription V → Subscription V
  report s = record s { reports = suc s.reports }

  handle_value : Text → Result DecodeError (ValueOf V) → Subscription V → Subscription V
  unfolding report
  handle_value subject (err e) s = report s
  handle_value subject (ok x) s =
      let called = record s { handled = s.handled ++ (subject, x) ∷ [] } in
      if env.handles subject x then called else report called

  deliver_accepted : Text → Telemetry → Bool × Dict Last → Subscription V → Subscription V
  unfolding handle_value
  deliver_accepted subject m (false, last) s = s
  deliver_accepted subject m (true, last) s =
      handle_value subject (decode_value V m.value) (record s { last = last })

  deliver_message : Text → Text → Option Telemetry → Subscription V → Subscription V
  unfolding deliver_accepted report
  deliver_message full subject none s = report s
  deliver_message full subject (some m) s = deliver_accepted subject m (accept full m s.last) s

  -- deliverValue
  unfoldable pub deliver_value : Text → Text → Payload → Subscription V → Subscription V
  unfolding deliver_message
  deliver_value full subject data_bytes s =
      deliver_message full subject (env.unmarshal data_bytes) s

  deliver_if : Text → Payload → Option Text → Subscription V → Subscription V
  deliver_if full data_bytes none s = s
  deliver_if full data_bytes (some subject) s = deliver_value full subject data_bytes s

  -- The callback of a subscription.
  unfoldable pub on_message : Text → Filter → Text → Payload → Subscription V → Subscription V
  unfolding deliver_if
  on_message system filter full data_bytes s =
      deliver_if full data_bytes (handler_subject system filter full) s

  -- One subject of the catch-up, by its relative name.
  unfoldable pub catch_up : Text → Text → Reply → Subscription V → Subscription V
  unfolding report
  catch_up full subject (found data_bytes) s = deliver_value full subject data_bytes s
  catch_up full subject ignored s = s
  catch_up full subject failed s = report s

  -- The catch-up of the subjects that are listed, until the subscription is stopped.
  unfoldable pub catch_up_each : Text → List (Text × Reply) → Subscription V → Subscription V
  unfolding catch_up
  catch_up_each system [] s = s
  catch_up_each system ((relative, reply) ∷ rest) s =
      catch_up_each system rest (catch_up (system ++ codes "." ++ relative) relative reply s)

  -- The catch-up of SubscribeSuffix and SubscribePrefix.
  unfoldable pub catch_up_subjects : Text → Listing → Subscription V → Subscription V
  unfolding report catch_up_each
  catch_up_subjects system (listed subjects) s = catch_up_each system subjects s
  catch_up_subjects system list_ignored s = s
  catch_up_subjects system list_failed s = report s

pub data SubscribeError : Type 0 where
  subject_error : SubjectError → SubscribeError
  suffix_required subscribe_failed : SubscribeError

-- startSubscription, by whether NATS subscribes.
unfoldable pub start_subscription : Bool → Filter → Result SubscribeError Filter
start_subscription true filter = ok filter
start_subscription false filter = err subscribe_failed

-- What Subscribe, SubscribeSuffix and SubscribePrefix follow; the client and the handler are not nil.
unfoldable pub subscribe : Bool → Text → Text → Result SubscribeError Filter
unfolding start_subscription
subscribe works system subject = do
  full ← wrap subject_error (validate_operation system subject)
  start_subscription works (exact full)

unfoldable pub subscribe_suffix : Bool → Text → Result SubscribeError Filter
unfolding start_subscription
subscribe_suffix works suffix = do
  fail_if (is_empty (trim_space suffix)) suffix_required
  start_subscription works (by_suffix (trim_space suffix))

unfoldable pub subscribe_prefix : Bool → Text → Text → Result SubscribeError Filter
unfolding start_subscription
subscribe_prefix works system prefix = do
  (name, _) ← wrap subject_error (validate_prefix system prefix)
  start_subscription works (by_prefix name)
