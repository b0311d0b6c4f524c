-- ===== src/Stream/Subscribe/Events.antt =====
-- stream/subscribe.go: a run of a subscription over live messages and replies of the catch-up, and what its
-- handler is called with.
use go_scada.Base.{
  Text, Bool, true, false, List, [], ◌∷◌, ◌++◌, Option, none, some, ok, err, ◌≡◌, refl, Dict,
  lookup, Result, if_cases, ◌∙◌, ap, sym, append_assoc, ap₂,
}
use go_scada.Retain.Store.{Payload}
use go_scada.Stream.Values.{GoType, ValueOf, decode_value, DecodeError}
use go_scada.Stream.Client.{Telemetry}
use mathlib.Core.List.{append-nil}
use go_scada.Stream.Subscribe.{
  Last, last_of, outdated, accept, Environment, Subscription, deliver_value, deliver_message,
  deliver_accepted, handle_value, report, Reply, Filter, found, ignored, failed, handler_subject,
  on_message, catch_up, deliver_if,
}

-- A delivery: the full subject, the subject for the handler, and the data.
pub record Delivery : Type 0 where
  pub full : Text
  pub subject : Text
  pub data_bytes : Payload

-- What a subscription goes through: a message that NATS delivers, and a reply of the catch-up for a full
-- subject, with the subject for the handler.
pub data Event : Type 0 where
  live : Text → Payload → Event
  caught : Text → Text → Reply → Event

delivery_if : Text → Payload → Option Text → Option Delivery
delivery_if full data_bytes none = none
delivery_if full data_bytes (some subject) =
    some (record { full = full; subject = subject; data_bytes = data_bytes })

-- The delivery that an event makes, if any.
unfoldable pub delivery_of : Text → Filter → Event → Option Delivery
unfolding delivery_if
delivery_of system filter (live full data_bytes) =
    delivery_if full data_bytes (handler_subject system filter full)
delivery_of system filter (caught full subject (found data_bytes)) =
    some (record { full = full; subject = subject; data_bytes = data_bytes })
delivery_of system filter (caught full subject _) = none

-- A message that is accepted.
pub record Accepted : Type 0 where
  pub full : Text
  pub subject : Text
  pub message : Telemetry

module _ (V : GoType) (env : Environment V) (system : Text) (filter : Filter) where
  handle_event : Event → Subscription V → Subscription V
  handle_event (live full data_bytes) s = on_message V env system filter full data_bytes s
  handle_event (caught full subject reply) s = catch_up V env full subject reply s

  unfoldable pub handle_events : List Event → Subscription V → Subscription V
  unfolding handle_event
  handle_events [] s = s
  handle_events (e ∷ es) s = handle_events es (handle_event e s)

  unfoldable pub accept_result : Delivery → Telemetry → Bool × Dict Last → List Accepted × Dict Last
  accept_result d m (true, last) =
      ((record { full = d.full; subject = d.subject; message = m }) ∷ [], last)
  accept_result d m (false, last) = ([], last)

  unfoldable pub accept_data : Delivery → Option Telemetry → Dict Last → List Accepted × Dict Last
  unfolding accept_result
  accept_data d none last = ([], last)
  accept_data d (some m) last = accept_result d m (accept d.full m last)

  unfoldable pub accept_delivery : Option Delivery → Dict Last → List Accepted × Dict Last
  unfolding accept_data
  accept_delivery none last = ([], last)
  accept_delivery (some d) last = accept_data d (env.unmarshal d.data_bytes) last

  -- The messages that are accepted, in the order of the events.
  unfoldable pub accepted : List Event → Dict Last → List Accepted
  unfolding accept_delivery delivery_of
  accepted [] last = []
  accepted (e ∷ es) last =
      let (now, after) = accept_delivery (delivery_of system filter e) last in
      now ++ accepted es after

  decoded_if : Accepted → Result DecodeError (ValueOf V) → List (Text × ValueOf V)
  decoded_if a (err e) = []
  decoded_if a (ok x) = (a.subject, x) ∷ []

  -- The values of accepted messages, those of another type left out.
  unfoldable pub values_of : List Accepted → List (Text × ValueOf V)
  unfolding decoded_if
  values_of [] = []
  values_of (a ∷ rest) = decoded_if a (decode_value V a.message.value) ++ values_of rest

  -- One delivery, as the handler sees it.
  record Handled (now : List Accepted) (after : Dict Last) (s t : Subscription V) : Type 0 where
    handled : t.handled ≡ s.handled ++ values_of now
    last : t.last ≡ after

  handle_value-Handled :
      (a : Accepted) (r : Result DecodeError (ValueOf V)) (s t : Subscription V)
      → decode_value V a.message.value ≡ r
      → t.handled ≡ s.handled
      → Handled (a ∷ []) t.last s (handle_value V env a.subject r t)
  unfolding handle_value report values_of decoded_if
  handle_value-Handled a (err e) s t decoded before = record {
    handled = rw decoded (before ∙ sym (append-nil s.handled));
    last = refl;
  }
  handle_value-Handled a (ok x) s t decoded before =
      if_cases (Handled (a ∷ []) t.last s) (env.handles a.subject x) _ _
        (λ _. record { handled = rw (decoded, before) refl; last = refl })
        (λ _. record { handled = rw (decoded, before) refl; last = refl })

  deliver_accepted-Handled :
      (d : Delivery) (m : Telemetry) (r : Bool × Dict Last) (s : Subscription V)
      → (r.0 ≡ false → r.1 ≡ s.last)
      → Handled
          (accept_result d m r).0
          (accept_result d m r).1
          s
          (deliver_accepted V env d.subject m r s)
  unfolding deliver_accepted accept_result values_of
  deliver_accepted-Handled d m (true, last) s same =
      handle_value-Handled (record { full = d.full; subject = d.subject; message = m })
        (decode_value V m.value) s (record s { last = last }) refl refl
  deliver_accepted-Handled d m (false, last) s same = record {
    handled = sym (append-nil s.handled);
    last = sym (same refl);
  }

  accept-same :
      (full : Text) (m : Telemetry) (last : Dict Last)
      → (accept full m last).0 ≡ false
      → (accept full m last).1 ≡ last
  unfolding accept
  accept-same full m last =
      if_cases (λ (r : Bool × Dict Last). r.0 ≡ false → r.1 ≡ last)
        (outdated (lookup full last) (last_of m)) _ _ (λ _ _. refl) (λ _ h. absurd cc)

  deliver_message-Handled :
      (d : Delivery) (o : Option Telemetry) (s : Subscription V)
      → Handled
          (accept_data d o s.last).0
          (accept_data d o s.last).1
          s
          (deliver_message V env d.full d.subject o s)
  unfolding deliver_message accept_data report values_of accept
  deliver_message-Handled d none s = record { handled = sym (append-nil s.handled); last = refl }
  deliver_message-Handled d (some m) s =
      deliver_accepted-Handled d m (accept d.full m s.last) s (accept-same d.full m s.last)

  values_of-append :
      (now later : List Accepted) → values_of (now ++ later) ≡ values_of now ++ values_of later
  unfolding values_of
  values_of-append [] later = refl
  values_of-append (a ∷ now) later = rw (values_of-append now later, append_assoc) refl

  kept-Handled :
      (s t : Subscription V) → t.handled ≡ s.handled → t.last ≡ s.last → Handled [] s.last s t
  unfolding values_of
  kept-Handled s t same kept = record { handled = same ∙ sym (append-nil s.handled); last = kept }

  handle_event-Handled :
      (e : Event) (s : Subscription V)
      → Handled
          (accept_delivery (delivery_of system filter e) s.last).0
          (accept_delivery (delivery_of system filter e) s.last).1
          s
          (handle_event e s)
  unfolding handle_event accept_delivery delivery_of delivery_if deliver_if catch_up deliver_value
      report on_message
  handle_event-Handled (live full data_bytes) s = message (handler_subject system filter full)
    where
      message :
          (o : Option Text)
          → Handled
              (accept_delivery (delivery_if full data_bytes o) s.last).0
              (accept_delivery (delivery_if full data_bytes o) s.last).1
              s
              (deliver_if V env full data_bytes o s)
      message none = kept-Handled s s refl refl
      message (some subject) =
          deliver_message-Handled
            (record { full = full; subject = subject; data_bytes = data_bytes })
            (env.unmarshal data_bytes) s
  handle_event-Handled (caught full subject (found data_bytes)) s =
      deliver_message-Handled (record { full = full; subject = subject; data_bytes = data_bytes })
        (env.unmarshal data_bytes) s
  handle_event-Handled (caught full subject ignored) s = kept-Handled s s refl refl
  handle_event-Handled (caught full subject failed) s = kept-Handled s (report V env s) refl refl

  -- The handler is called with the values of the accepted messages, in order.
  pub handle_events-handled :
      (es : List Event) (s : Subscription V)
      → (handle_events es s).handled ≡ s.handled ++ values_of (accepted es s.last)
  unfolding handle_events accepted values_of
  handle_events-handled [] s = sym (append-nil s.handled)
  handle_events-handled (e ∷ es) s =
      let (now, after) = accept_delivery (delivery_of system filter e) s.last in
      let step = handle_event-Handled e s in
      handle_events-handled es (handle_event e s)
      ∙ ap₂ (λ h last. h ++ values_of (accepted es last)) step.handled step.last
      ∙ append_assoc s.handled (values_of now) (values_of (accepted es after))
      ∙ ap (λ h. s.handled ++ h) (sym (values_of-append now (accepted es after)))
