-- ===== src/Stream/Client/Latest.antt =====
-- stream/client.go over retain/server.go: the map of latest values that a client stands for, and how a message
-- that is published changes it.
use go_scada.Base.{
  Text, Bool, false, ◌||◌, ◌≡◌, refl, sym, ◌∙◌, ap, ◌≢◌, List, [], ◌∷◌, ◌++◌, Option, none, some,
  ok, err, Check, is_empty, if_cases, text_eq, text_eq_iff, mem_text, lookup, lookup-insert,
  lookup-insert_self, arith,
}
use go_scada.Retain.Store.{Store, Payload, put}
use go_scada.Retain.Server.{Message, handle_ingest}
use go_scada.Stream.Values.{Kind}
use go_scada.Stream.Registry.{created_subject}
use go_scada.Stream.Subjects.{relative_subject}
use go_scada.Stream.Client.{
  Telemetry, Environment, Stream, ClientError, tick, next_sequence, mark_known, get_payload,
  announce_relative, should_announce, new_message, publish_data, publish,
}

-- The store once everything on the wire has reached the retain service.
abbrev pub settle : List Message → Store → Store
settle [] store = store
settle (m ∷ wire) store = settle wire (handle_ingest m store)

-- proto.Unmarshal gives back what proto.Marshal wrote.
abbrev pub MarshalsBack : Environment → Type 0
MarshalsBack env = (m : Telemetry) (p : Payload) → env.marshal m ≡ some p → env.unmarshal p ≡ some m

settle-append :
    (wire : List Message) (m : Message) (store : Store)
    → settle (wire ++ m ∷ []) store ≡ handle_ingest m (settle wire store)
settle-append [] m store = refl
settle-append (x ∷ wire) m store = settle-append wire m (handle_ingest x store)

module _ (env : Environment) where
  unfoldable pub value_in : Option Payload → Option Kind
  value_in none = none
  value_in (some p) = elim (env.unmarshal p) [ none ↦ none | some message ↦ message.value ]

  -- The map that the client stands for: the latest value of a full subject.
  unfoldable pub latest : Stream → Text → Option Kind
  unfolding value_in
  latest s full = value_in (lookup full (settle s.wire s.store).values)

  -- Nothing went on the wire.
  pub record Quiet (s t : Stream) : Type 0 where
    pub wire : t.wire ≡ s.wire
    pub store : t.store ≡ s.store
    pub system : t.system ≡ s.system

  -- One message went on the wire.
  pub record Wrote (full : Text) (kind : Kind) (s t : Stream) : Type 0 where
    pub body : Payload
    pub message : Telemetry
    pub decoded : env.unmarshal body ≡ some message
    pub holds : message.value ≡ some kind
    pub wire : t.wire ≡ s.wire ++ (record { subject = full; reply = []; body = body }) ∷ []
    pub store : t.store ≡ s.store
    pub system : t.system ≡ s.system

  pub latest-Quiet : (s t : Stream) (full : Text) → Quiet s t → latest t full ≡ latest s full
  unfolding latest
  latest-Quiet s t full q = rw (q.wire, q.store)

  pub latest-Wrote_self :
      (full : Text) (kind : Kind) (s t : Stream)
      → is_empty full ≡ false
      → Wrote full kind s t
      → latest t full ≡ some kind
  unfolding latest value_in handle_ingest put
  latest-Wrote_self full kind s t named w = ground (
    arith,
    w.wire,
    w.store,
    settle-append s.wire (record { subject = full; reply = []; body = w.body }) s.store,
    named,
    lookup-insert_self full w.body (settle s.wire s.store).values,
    w.decoded,
    w.holds,
  )

  pub latest-Wrote_other :
      (full other : Text) (kind : Kind) (s t : Stream)
      → other ≢ full
      → Wrote full kind s t
      → latest t other ≡ latest s other
  unfolding latest value_in handle_ingest put
  latest-Wrote_other full other kind s t apart w = ground (
    arith,
    w.wire,
    w.store,
    settle-append s.wire (record { subject = full; reply = []; body = w.body }) s.store,
    lookup-insert full other w.body (settle s.wire s.store).values,
    text_eq_iff full other,
    λ (e : full ≡ other). apart (sym e),
  )

  -- How publish goes: the message is on the wire, or nothing is.
  abbrev pub Published : Text → Kind → Stream → Check ClientError × Stream → Type 0
  Published full kind s (ok _, t) = Wrote full kind s t
  Published full kind s (err e, t) = Quiet s t

  mark_known-same :
      (full : Text) (s : Stream)
      → ((mark_known full s).wire ≡ s.wire)
        × ((mark_known full s).store ≡ s.store)
        × ((mark_known full s).system ≡ s.system)
  unfolding mark_known
  mark_known-same full s = ground arith

  publish_data-Published :
      (full : Text) (kind : Kind) (m : Telemetry) (o : Option Payload) (s t : Stream)
      → env.marshal m ≡ o
      → m.value ≡ some kind
      → MarshalsBack env
      → Quiet s t
      → Published full kind s (publish_data env full o t)
  unfolding publish_data
  publish_data-Published full kind m none s t e v back q = q
  publish_data-Published full kind m (some p) s t e v back q =
      if_cases (Published full kind s) (env.publishes t.calls) _ _
        (λ works.
          let (a, b, c) = mark_known-same full (record (tick t) {
            wire = t.wire ++ (record { subject = full; reply = []; body = p }) ∷ [];
          }) in
          record {
            body = p;
            message = m;
            decoded = back m p e;
            holds = v;
            wire = a ∙ ap (λ w. w ++ (record { subject = full; reply = []; body = p }) ∷ []) q.wire;
            store = b ∙ q.store;
            system = c ∙ q.system;
          })
        (λ fails. record { wire = q.wire; store = q.store; system = q.system })

  pub publish-Published :
      (full : Text) (kind : Kind) (s : Stream)
      → MarshalsBack env
      → Published full kind s (publish env full kind s)
  unfolding publish new_message next_sequence
  publish-Published full kind s back =
      publish_data-Published full kind (new_message env full kind s).0
        (env.marshal (new_message env full kind s).0) s (new_message env full kind s).1 refl refl
        back (record { wire = refl; store = refl; system = refl })

  announce_relative-Quiet :
      (full : Text) (o : Option Text) (s : Stream) → Quiet s (announce_relative env full o s).1
  unfolding announce_relative get_payload
  announce_relative-Quiet full none s = record { wire = refl; store = refl; system = refl }
  announce_relative-Quiet full (some relative) s =
      if_cases (λ (r : Bool × Stream). Quiet s r.1)
        (text_eq relative created_subject || mem_text full s.known) _ _
        (λ _. record { wire = refl; store = refl; system = refl })
        (λ _. record { wire = refl; store = refl; system = refl })

  pub should_announce-Quiet : (full : Text) (s : Stream) → Quiet s (should_announce env full s).1
  unfolding should_announce
  should_announce-Quiet full s =
      if_cases (λ (r : Bool × Stream). Quiet s r.1) (is_empty full) _ _
        (λ _. record { wire = refl; store = refl; system = refl })
        (λ _. announce_relative-Quiet full (relative_subject s.system full) s)
