-- ===== src/Alert/Service/Handlers.antt =====
-- alert/service.go: what the service does with a property, a configuration, an input and a state.
use go_scada.Base.{
  ℕ, suc, Text, Bool, true, false, not, ◌&&◌, ◌||◌, List, [], ◌∷◌, Option, none, some, Result, ok,
  err, Dict, lookup, insert, remove, if◌then◌else◌, is_some, is_empty, trim_space, text_eq, any,
  length, ◌==◌, ◌>>=◌, ◌>>◌, Check,
}
use go_scada.Value.{Value}
use go_scada.Alert.Model.{Properties, Interval, Config, State}
use go_scada.Alert.Protocol.{AlertError, output_subject, input_subject}
use go_scada.Alert.Validation.{
  parse_properties, parse_config, validate_for_subject, parse_state, parse_state_unchecked,
  validate_state,
}
use go_scada.Alert.Service.{
  Environment, Definition, Service, tick, is_summary, summary_members, hook_parents,
  remove_definition, definition_for_output, all_members,
}
use go_scada.Alert.Service.Comparing.{state_eq}
use go_scada.Alert.Service.Cycles.{summary_cycle}
use go_scada.Alert.Service.Evaluating.{
  evaluate_definition, make_inactive, republish_canonical, acknowledge_one,
}
use go_scada.Alert.Service.Ancestors.{walk_ancestors, evaluate_ancestors, acknowledge_tree}

-- definitionReferences
unfoldable pub definition_references : Config → Text → Bool
definition_references config property = elim config.binary [
  | some b ↦ text_eq b.when_true.property property || text_eq b.when_false.property property
  | none ↦ elim config.value [
    | some v ↦ any (λ (i : Interval). text_eq i.property property) v.intervals
    | none ↦ false
  ]
]

-- The input of the definition of a subject is set; a definition is shared by its pointer.
unfoldable pub set_input : Text → Definition → Value → Service → Service
set_input subject d v s = record s {
  definitions = insert subject (record d { input = some v }) s.definitions;
}

-- The subject's own configuration, checked and with its two derived subjects.
pub record Accepted : Type 0 where
  pub config : Config
  pub output : Text
  pub source : Text

-- ParseState's result is stored if there is one; an error is only logged.
unfoldable pub store_parsed : Text → Result AlertError State → Service → Service
store_parsed subject (err e) s = s
store_parsed subject (ok state) s = record s { states = insert subject state s.states }

module _ (env : Environment) where
  -- The loop over the definitions, with the subjects seen.
  unfoldable pub property_changed : Text → Dict Definition → List Text → Service → Service
  property_changed property [] seen s = s
  property_changed property ((subject, d) ∷ ds) seen s =
      let skip = property_changed property ds seen s in
      let w = walk_ancestors env d.output seen (evaluate_definition env subject s) in
      let visit = property_changed property ds w.seen w.service in
      if not (is_summary d.config.kind)
        && definition_references d.config property
        && is_some d.input
      then visit
      else skip

  unfoldable pub set_property : Text → Result AlertError Properties → Service → Service
  set_property subject (err e) s = record s { properties = remove subject s.properties }
  set_property subject (ok p) s = record s { properties = insert subject p s.properties }

  unfoldable pub reconcile_property : Text → Text → Service → Service
  unfolding property_changed set_property
  reconcile_property subject raw s =
      let s' = set_property subject (parse_properties env.decode_properties raw) s in
      property_changed subject s'.definitions [] s'

  unfoldable pub accept_found : Text → ℕ → Value → Option Definition → Service → Service
  accept_found subject expected v none s = s
  accept_found subject expected v (some d) s =
      let after = evaluate_definition env subject (set_input subject d v s) in
      if d.identity == expected then evaluate_ancestors env d.output after else s

  unfoldable pub accept_input : Text → ℕ → Value → Service → Service
  unfolding accept_found
  accept_input subject expected v s =
      accept_found subject expected v (lookup subject s.definitions) s

  unfoldable pub accept_each : Text → Value → Dict Definition → Service → Service
  accept_each source v [] s = s
  accept_each source v ((subject, d) ∷ ds) s = accept_each source v ds (
      if not (is_summary d.config.kind) && text_eq d.source source
      then accept_input subject d.identity v s
      else s)

  unfoldable pub accept_source : Text → Value → Service → Service
  unfolding accept_each
  accept_source source v s = accept_each source v s.definitions s

  unfoldable pub catch_up_with : Text → Option Text → Service → Service
  catch_up_with subject none s = s
  catch_up_with subject (some raw) s =
      if is_empty (trim_space raw)
      then s
      else store_parsed subject (parse_state env.decode_state raw) s

  unfoldable pub catch_up_state : Text → Service → Service
  unfolding catch_up_with
  catch_up_state subject s =
      if is_some (lookup subject s.states)
      then s
      else catch_up_with subject (env.get_string s.calls subject) (tick s)

  -- `service.statesWatch.Watch`, whose error is only logged.
  unfoldable pub watch_state_in : Text → Option (List Text) → Service → Service
  watch_state_in subject none s = s
  watch_state_in subject (some names) s = record (tick s) {
    states_watch = some (if env.watches s.calls subject then subject ∷ names else names);
  }

  unfoldable pub watch_state : Text → Service → Service
  unfolding watch_state_in
  watch_state subject s = watch_state_in subject s.states_watch s

  unfoldable pub watch_members : List Text → Service → Service
  watch_members [] s = s
  watch_members (member ∷ members) s =
      watch_members members (catch_up_state member (watch_state member s))

  -- The output is made inactive, and what depends on it evaluated again.
  unfoldable pub drop_output : Text → Service → Service
  drop_output output s = evaluate_ancestors env output (make_inactive env output s)

  -- parseConfig, ValidateForSubject, OutputSubject and InputSubject.
  unfoldable pub check_config : Text → Text → Result AlertError Accepted
  check_config subject raw = do
    config ← parse_config env.parse_float env.decode_config raw
    validate_for_subject env.parse_float config subject
    output ← output_subject subject
    source ← input_subject subject
    ok (record { config = config; output = output; source = source })

  -- The branch of an error.
  unfoldable pub reject_config : Result AlertError Text → Service → Service
  reject_config (err e) s = s
  reject_config (ok output) s = drop_output output s

  -- A summary, once its definition is stored.
  unfoldable pub add_summary : Text → Definition → Service → Service
  unfolding watch_members
  add_summary subject d s =
      let hooked = hook_parents subject d s in
      if summary_cycle d.output hooked
      then drop_output d.output (remove_definition subject hooked)
      else evaluate_ancestors env d.output
          (evaluate_definition env subject (watch_members (summary_members d.config) hooked))

  unfoldable pub first_input : Text → Definition → Option Value → Service → Service
  first_input subject d none s = s
  first_input subject d (some v) s = accept_input subject d.identity v s

  -- A binary or value alert, once its definition is stored.
  unfoldable pub add_watched : Text → Definition → Option (List Text) → Service → Service
  unfolding first_input
  add_watched subject d none s = s
  add_watched subject d (some names) s =
      let watched = record (tick s) { inputs = some (d.source ∷ names) } in
      if env.watches s.calls d.source
      then first_input subject d (env.get_any watched.calls d.source) (tick watched)
      else drop_output d.output (remove_definition subject (tick s))

  -- The definition is stored under its subject and its output.
  unfoldable pub store_definition : Text → Definition → Service → Service
  store_definition subject d s = record s {
    definitions = insert subject d s.definitions;
    by_output = insert d.output subject s.by_output;
    allocated = suc s.allocated;
  }

  unfoldable pub add_definition : Text → Text → Accepted → Service → Service
  unfolding add_summary add_watched
  add_definition subject raw a s =
      let d : Definition = record {
        identity = s.allocated;
        raw = raw;
        config = a.config;
        output = a.output;
        source = a.source;
        input = none;
      } in
      let stored = watch_state a.output (store_definition subject d s) in
      if is_summary a.config.kind
      then add_summary subject d stored
      else add_watched subject d stored.inputs stored

  unfoldable pub reconcile_checked : Text → Text → Result AlertError Accepted → Service → Service
  unfolding reject_config
  reconcile_checked subject raw (err e) s = reject_config (output_subject subject) s
  reconcile_checked subject raw (ok a) s =
      if a.config.enabled then add_definition subject raw a s else drop_output a.output s

  unfoldable pub reconcile_config : Text → Text → Service → Service
  unfolding reconcile_checked check_config
  reconcile_config subject raw s =
      reconcile_checked subject raw (check_config subject raw) (remove_definition subject s)

  -- The depth of acknowledgeTreeLocked: the calls in progress are about different outputs, the first or
  -- members of definitions.
  unfoldable pub acknowledge_all : Text → Service → Service
  acknowledge_all subject s =
      acknowledge_tree env (suc (suc (length (all_members s.definitions)))) [] subject s

  abbrev pub is_summary_definition : Option Definition → Bool
  is_summary_definition none = false
  is_summary_definition (some d) = is_summary d.config.kind

  -- The state of an owned output arrives, and differs from the canonical one or not.
  unfoldable pub owned_state : Text → State → State → Service → Service
  owned_state subject canonical incoming s =
      let acknowledged =
        if is_summary_definition (definition_for_output subject s)
        then acknowledge_all subject s
        else acknowledge_one env subject s in
      if state_eq canonical incoming
      then s
      else if incoming.acknowledged
          && canonical.pending
          && text_eq incoming.episode_id canonical.episode_id
      then evaluate_ancestors env subject acknowledged
      else republish_canonical env subject s

  unfoldable pub store_external : Text → State → Check AlertError → Service → Service
  store_external subject incoming (err e) s = s
  store_external subject incoming (ok _) s =
      evaluate_ancestors env subject (record s { states = insert subject incoming s.states })

  unfoldable pub external_state : Text → State → Service → Service
  unfolding store_external
  external_state subject incoming s = store_external subject incoming (validate_state incoming) s

  unfoldable pub reconcile_parsed :
      Text → Result AlertError State → Option State → Bool → Service → Service
  unfolding owned_state external_state
  reconcile_parsed subject (err e) canonical owned s =
      if owned then republish_canonical env subject s else s
  reconcile_parsed subject (ok incoming) none owned s = external_state subject incoming s
  reconcile_parsed subject (ok incoming) (some canonical) false s =
      external_state subject incoming s
  reconcile_parsed subject (ok incoming) (some canonical) true s =
      owned_state subject canonical incoming s

  unfoldable pub reconcile_state : Text → Text → Service → Service
  unfolding reconcile_parsed
  reconcile_state subject raw s =
      reconcile_parsed subject (parse_state_unchecked env.decode_state raw)
        (lookup subject s.states) (is_some (lookup subject s.by_output)) s
