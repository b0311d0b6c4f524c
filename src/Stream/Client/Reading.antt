-- ===== src/Stream/Client/Reading.antt =====
-- stream/client.go over retain/server.go: Get reads what Set wrote, in the type that was written.
use go_scada.Base.{
  Text, true, false, ◌≡◌, refl, List, [], ◌∷◌, ◌++◌, some, ok, codes, trim_space, lookup,
  Option-cases, inl, inr, arith, wrap, is_empty, Check, ◌≢◌, ap, Bool-cases, err, ◌∙◌,
}
use go_scada.Retain.Store.{get as retained}
use go_scada.Retain.Server.{Message, handle_ingest, handle_get, respond_get}
use go_scada.Stream.Values.{
  GoType, Kind, decode_value, ValueOf, wrong_type, encode_value, decode_value_iff,
  decode_value-encode_value,
}
use go_scada.Stream.Registry.{created_subject}
use go_scada.Stream.Subjects.{validate_operation}
use go_scada.Stream.Client.{
  Environment, Stream, value_error, ingest, ingest_from, drain_all, drain, request, get_payload,
  set, set_kind, set_full, ClientError,
}
use go_scada.Stream.Client.Getting.{decode_payload, get_full, get}
use go_scada.Stream.Client.Latest.{settle, value_in, latest, MarshalsBack}
use go_scada.Stream.Client.Setting.{full_of, Effect, set_refines}

drain_all-settles :
    (wire : List Message) (s : Stream)
    → s.wire ≡ wire
    → ((drain_all wire s).wire ≡ [])
      × ((drain_all wire s).store ≡ settle wire s.store)
      × ((drain_all wire s).system ≡ s.system)
unfolding drain_all ingest ingest_from
drain_all-settles [] s e = (e, refl, refl)
drain_all-settles (m ∷ rest) s e =
    rw e (drain_all-settles rest (record s { wire = rest; store = handle_ingest m s.store }) refl)

module _ (env : Environment) where
  latest-drain : (s : Stream) (full : Text) → latest env (drain s) full ≡ latest env s full
  unfolding latest drain
  latest-drain s full = let (wire, store, _) = drain_all-settles s.wire s refl in rw (wire, store)

  -- Get reads the latest value once everything has arrived and the retain service answers.
  get_full-latest :
      (V : GoType) (full : Text) (kind : Kind) (s : Stream)
      → s.wire ≡ []
      → env.answers s.calls ≡ true
      → latest env s full ≡ some kind
      → (get_full env V (ok full) s).0 ≡ wrap value_error (decode_value V (some kind))
  unfolding get_full decode_payload get_payload request handle_get respond_get retained latest
      value_in
  get_full-latest V full kind s wire answers is = elim (Option-cases (lookup full s.store.values)) [
    | inl missing ↦ absurd (ground (arith, is, wire, missing))
    | inr (p, found) ↦ elim (Option-cases (env.unmarshal p)) [
      | inl broken ↦ absurd (ground (arith, is, wire, found, broken))
      | inr (m, decoded) ↦
          let holds : m.value ≡ some kind = ground (arith, is, wire, found, decoded) in
          rw (answers, found, decoded, holds)
    ]
  ]

  validate-ok :
      (system subject : Text)
      → is_empty (trim_space subject) ≡ false
      → validate_operation system subject ≡ ok (system ++ codes "." ++ trim_space subject)
  unfolding validate_operation
  validate-ok system subject h = rw h

  get-latest :
      (V : GoType) (subject : Text) (kind : Kind) (s : Stream)
      → s.wire ≡ []
      → env.answers s.calls ≡ true
      → is_empty (trim_space subject) ≡ false
      → latest env s (full_of env s (trim_space subject)) ≡ some kind
      → (get env V subject s).0 ≡ wrap value_error (decode_value V (some kind))
  unfolding get
  get-latest V subject kind s wire answers named is =
      rw (validate-ok s.system subject named)
        (get_full-latest V (full_of env s (trim_space subject)) kind s wire answers is)

  set-named :
      (V : GoType) (subject : Text) (x : ValueOf V) (s : Stream)
      → (set env V subject x s).0 ≡ ok tt
      → is_empty (trim_space subject) ≡ false
  unfolding set set_kind set_full validate_operation
  set-named V subject x s h = elim (Bool-cases (is_empty (trim_space subject))) [
    | inl empty ↦ absurd (ground (arith, h, empty))
    | inr named ↦ named
  ]

-- When Set returned no error and everything on the wire has reached the retain service, and the service
-- answers, Get of the same subject and type returns the value that was set, and Get of another type
-- returns the error that names both types.
pub set-get :
    (env : Environment) (V : GoType) (subject : Text) (x : ValueOf V) (s : Stream)
    → MarshalsBack env
    → (set env V subject x s).0 ≡ ok tt
    → env.answers (drain (set env V subject x s).1).calls ≡ true
    → ((get env V subject (drain (set env V subject x s).1)).0 ≡ ok x)
      × ((W : GoType)
          → W ≢ V
          → (get env W subject (drain (set env V subject x s).1)).0
            ≡ err (value_error (wrong_type V W)))
unfolding drain
set-get env V subject x s back done answers =
    let t = (set env V subject x s).1 in
    let (value, _, system) = of (set env V subject x s) done (set_refines env V subject x s back) in
    let (wire, _, same) = drain_all-settles t.wire t refl in
    let named = set-named env V subject x s done in
    let there : latest env (drain t) (full_of env (drain t) (trim_space subject))
        ≡ some (encode_value V x) =
      latest-drain env t (full_of env (drain t) (trim_space subject))
      ∙ ap (λ name. latest env t (name ++ codes "." ++ trim_space subject)) (same ∙ system)
      ∙ value in
    (
      get-latest env V subject (encode_value V x) (drain t) wire answers named there
          ∙ ap (wrap value_error) ((decode_value_iff V (some (encode_value V x)) x).1 refl),
      λ W other.
          get-latest env W subject (encode_value V x) (drain t) wire answers named there
          ∙ ap (wrap value_error) (decode_value-encode_value V W x other),
    )
  where
    of :
        (r : Check ClientError × Stream)
        → r.0 ≡ ok tt
        → Effect env (trim_space subject) (encode_value V x) s r
        → (latest env r.1 (full_of env s (trim_space subject)) ≡ some (encode_value V x))
          × ((other : Text)
              → other ≢ full_of env s (trim_space subject)
              → other ≢ full_of env s created_subject
              → latest env r.1 other ≡ latest env s other)
          × (r.1.system ≡ s.system)
    of (ok _, u) e h = h
    of (err _, u) e h = absurd cc
