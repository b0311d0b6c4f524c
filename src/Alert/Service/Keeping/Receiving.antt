-- ===== src/Alert/Service/Keeping/Receiving.antt =====
-- alert/service.go: what the handlers keep that are not about a configuration.
use go_scada.Base.{
  remove, ℕ, Text, Bool, true, false, not, ◌&&◌, ◌≡◌, refl, List, [], ◌∷◌, Option, none, some,
  Result, ok, err, Dict, lookup, if_cases, is_some, is_empty, trim_space, text_eq, ◌==◌, insert,
}
use go_scada.Value.{Value}
use go_scada.Alert.Model.{Properties, State}
use go_scada.Alert.Protocol.{AlertError}
use go_scada.Alert.Validation.{validate_state, parse_state, parse_properties, parse_state_unchecked}
use go_scada.Alert.Service.{
  Environment, Definition, Service, tick, is_summary, definition_for_output,
}
use go_scada.Alert.Service.Comparing.{state_eq}
use go_scada.Alert.Service.Handlers.{
  definition_references, set_input, property_changed, set_property, reconcile_property,
  accept_found, accept_input, accept_each, accept_source, catch_up_with, catch_up_state,
  watch_state, watch_members, drop_output, acknowledge_all, is_summary_definition, owned_state,
  external_state, reconcile_parsed, reconcile_state, store_parsed, store_external, watch_state_in,
}
use go_scada.Alert.Service.Keeping.{
  Keeps, evaluate_definition-keeps, make_inactive-keeps, republish_canonical-keeps,
  acknowledge_one-keeps,
}
use go_scada.Alert.Service.Keeping.Walks.{
  walk_ancestors-keeps, evaluate_ancestors-keeps, acknowledge_tree-keeps,
}
use go_scada.Alert.Service.Valid.{parse_state-valid}

-- What the handlers other than that of configurations do besides evaluations.
pub record Receives (env : Environment) (P : Service → Type 0) : Type 0 where
  pub keeps : Keeps env P
  pub properties : (ps : Dict Properties) (s : Service) → P s → P (record s { properties = ps })
  pub inputs :
      (subject : Text) (d : Definition) (v : Value) (s : Service)
      → lookup subject s.definitions ≡ some d
      → P s
      → P (set_input subject d v s)
  pub watching :
      (globals : List Text) (configs states_watch inputs : Option (List Text)) (running : Bool)
      (stopped : List Text) (s : Service)
      → P s
      → P (record s {
        globals = globals;
        configs = configs;
        states_watch = states_watch;
        inputs = inputs;
        running = running;
        stopped = stopped;
      })

module _ (env : Environment) (P : Service → Type 0) (receives : Receives env P) where
  pub store_parsed-keeps :
      (subject : Text) (r : Result AlertError State) (s : Service)
      → ((state : State) → r ≡ ok state → validate_state state ≡ ok tt)
      → P s
      → P (store_parsed subject r s)
  unfolding store_parsed
  store_parsed-keeps subject (err e) s v h = h
  store_parsed-keeps subject (ok state) s v h =
      receives.keeps.stores subject state s (v state refl) h

  property_changed-keeps :
      (property : Text) (ds : Dict Definition) (seen : List Text) (s : Service)
      → P s
      → P (property_changed env property ds seen s)
  unfolding property_changed
  property_changed-keeps property [] seen s h = h
  property_changed-keeps property ((subject, d) ∷ ds) seen s h =
      if_cases P
        (not (is_summary d.config.kind)
          && definition_references d.config property
          && is_some d.input)
        _ _
        (λ _. property_changed-keeps property ds _ _ (
          walk_ancestors-keeps env P receives.keeps d.output seen _
            (evaluate_definition-keeps env P receives.keeps subject s h)))
        (λ _. property_changed-keeps property ds seen s h)

  set_property-keeps :
      (subject : Text) (r : Result AlertError Properties) (s : Service)
      → P s
      → P (set_property env subject r s)
  unfolding set_property
  set_property-keeps subject (err e) s h = receives.properties (remove subject s.properties) s h
  set_property-keeps subject (ok p) s h = receives.properties (insert subject p s.properties) s h

  pub reconcile_property-keeps :
      (subject raw : Text) (s : Service) → P s → P (reconcile_property env subject raw s)
  unfolding reconcile_property
  reconcile_property-keeps subject raw s h =
      let kept = set_property-keeps subject (parse_properties env.decode_properties raw) s h in
      property_changed-keeps subject
        (set_property env subject (parse_properties env.decode_properties raw) s).definitions []
        (set_property env subject (parse_properties env.decode_properties raw) s) kept

  accept_found-keeps :
      (subject : Text) (expected : ℕ) (v : Value) (o : Option Definition) (s : Service)
      → lookup subject s.definitions ≡ o
      → P s
      → P (accept_found env subject expected v o s)
  unfolding accept_found
  accept_found-keeps subject expected v none s e h = h
  accept_found-keeps subject expected v (some d) s e h =
      if_cases P (d.identity == expected) _ _
        (λ _. evaluate_ancestors-keeps env P receives.keeps d.output _ (
          evaluate_definition-keeps env P receives.keeps subject (set_input subject d v s)
            (receives.inputs subject d v s e h)))
        (λ _. h)

  pub accept_input-keeps :
      (subject : Text) (expected : ℕ) (v : Value) (s : Service)
      → P s
      → P (accept_input env subject expected v s)
  unfolding accept_input
  accept_input-keeps subject expected v s h =
      accept_found-keeps subject expected v (lookup subject s.definitions) s refl h

  accept_each-keeps :
      (source : Text) (v : Value) (ds : Dict Definition) (s : Service)
      → P s
      → P (accept_each env source v ds s)
  unfolding accept_each
  accept_each-keeps source v [] s h = h
  accept_each-keeps source v ((subject, d) ∷ ds) s h = accept_each-keeps source v ds _ (
      if_cases P (not (is_summary d.config.kind) && text_eq d.source source) _ _
        (λ _. accept_input-keeps subject d.identity v s h) (λ _. h))

  pub accept_source-keeps :
      (source : Text) (v : Value) (s : Service) → P s → P (accept_source env source v s)
  unfolding accept_source
  accept_source-keeps source v s h = accept_each-keeps source v s.definitions s h

  catch_up_with-keeps :
      (subject : Text) (o : Option Text) (s : Service) → P s → P (catch_up_with env subject o s)
  unfolding catch_up_with
  catch_up_with-keeps subject none s h = h
  catch_up_with-keeps subject (some raw) s h =
      if_cases P (is_empty (trim_space raw)) _ _ (λ _. h)
        (λ _.
          store_parsed-keeps subject (parse_state env.decode_state raw) s
            (λ state e. parse_state-valid env raw state e) h)

  pub catch_up_state-keeps : (subject : Text) (s : Service) → P s → P (catch_up_state env subject s)
  unfolding catch_up_state
  catch_up_state-keeps subject s h =
      if_cases P (is_some (lookup subject s.states)) _ _ (λ _. h)
        (λ _.
          catch_up_with-keeps subject (env.get_string s.calls subject) (tick s)
            (receives.keeps.ticks s h))

  watch_state_in-keeps :
      (subject : Text) (names : Option (List Text)) (s : Service)
      → P s
      → P (watch_state_in env subject names s)
  unfolding watch_state_in
  watch_state_in-keeps subject none s h = h
  watch_state_in-keeps subject (some names) s h =
      receives.watching s.globals s.configs _ s.inputs s.running s.stopped (tick s)
        (receives.keeps.ticks s h)

  pub watch_state-keeps : (subject : Text) (s : Service) → P s → P (watch_state env subject s)
  unfolding watch_state
  watch_state-keeps subject s h = watch_state_in-keeps subject s.states_watch s h

  pub watch_members-keeps :
      (members : List Text) (s : Service) → P s → P (watch_members env members s)
  unfolding watch_members
  watch_members-keeps [] s h = h
  watch_members-keeps (member ∷ members) s h =
      watch_members-keeps members _
        (catch_up_state-keeps member (watch_state env member s) (watch_state-keeps member s h))

  pub drop_output-keeps : (output : Text) (s : Service) → P s → P (drop_output env output s)
  unfolding drop_output
  drop_output-keeps output s h =
      evaluate_ancestors-keeps env P receives.keeps output _
        (make_inactive-keeps env P receives.keeps output s h)

  acknowledge_all-keeps : (subject : Text) (s : Service) → P s → P (acknowledge_all env subject s)
  unfolding acknowledge_all
  acknowledge_all-keeps subject s h = acknowledge_tree-keeps env P receives.keeps _ [] subject s h

  owned_state-keeps :
      (subject : Text) (canonical incoming : State) (s : Service)
      → P s
      → P (owned_state env subject canonical incoming s)
  unfolding owned_state
  owned_state-keeps subject canonical incoming s h =
      if_cases P (state_eq canonical incoming) _ _ (λ _. h)
        (λ _.
          if_cases P
            (incoming.acknowledged
              && canonical.pending
              && text_eq incoming.episode_id canonical.episode_id)
            _ _
            (λ _. evaluate_ancestors-keeps env P receives.keeps subject _ (
              if_cases P (is_summary_definition env (definition_for_output subject s)) _ _
                (λ _. acknowledge_all-keeps subject s h)
                (λ _. acknowledge_one-keeps env P receives.keeps subject s h)))
            (λ _. republish_canonical-keeps env P receives.keeps subject s h))

  store_external-keeps :
      (subject : Text) (incoming : State) (r : Result AlertError (Unit {0})) (s : Service)
      → (r ≡ ok tt → validate_state incoming ≡ ok tt)
      → P s
      → P (store_external env subject incoming r s)
  unfolding store_external
  store_external-keeps subject incoming (err e) s v h = h
  store_external-keeps subject incoming (ok tt) s v h =
      evaluate_ancestors-keeps env P receives.keeps subject _
        (receives.keeps.stores subject incoming s (v refl) h)

  external_state-keeps :
      (subject : Text) (incoming : State) (s : Service)
      → P s
      → P (external_state env subject incoming s)
  unfolding external_state
  external_state-keeps subject incoming s h =
      store_external-keeps subject incoming (validate_state incoming) s (λ e. e) h

  reconcile_parsed-keeps :
      (subject : Text) (r : Result AlertError State) (canonical : Option State) (owned : Bool)
      (s : Service)
      → P s
      → P (reconcile_parsed env subject r canonical owned s)
  unfolding reconcile_parsed
  reconcile_parsed-keeps subject (err e) canonical owned s h =
      if_cases P owned _ _ (λ _. republish_canonical-keeps env P receives.keeps subject s h)
        (λ _. h)
  reconcile_parsed-keeps subject (ok incoming) none owned s h =
      external_state-keeps subject incoming s h
  reconcile_parsed-keeps subject (ok incoming) (some canonical) false s h =
      external_state-keeps subject incoming s h
  reconcile_parsed-keeps subject (ok incoming) (some canonical) true s h =
      owned_state-keeps subject canonical incoming s h

  pub reconcile_state-keeps :
      (subject raw : Text) (s : Service) → P s → P (reconcile_state env subject raw s)
  unfolding reconcile_state
  reconcile_state-keeps subject raw s h =
      reconcile_parsed-keeps subject (parse_state_unchecked env.decode_state raw)
        (lookup subject s.states) (is_some (lookup subject s.by_output)) s h
