-- ===== src/Alert/Service/Valid/Configured.antt =====
-- alert/service.go: the states are valid from the start on, and after every callback.
use go_scada.Base.{Text, List, ◌∷◌, Option, none, some, Result, ok, err, lookup, if_cases}
use go_scada.Value.{Value}
use go_scada.Alert.Protocol.{AlertError, output_subject}
use go_scada.Alert.Service.{
  Environment, Definition, Service, tick, is_summary, summary_members, hook_parents, remove_found,
  remove_definition, unhook_parents,
}
use go_scada.Alert.Service.Cycles.{summary_cycle}
use go_scada.Alert.Service.Handlers.{
  set_input, Accepted, watch_state, check_config, reject_config, add_summary, first_input,
  store_definition, add_definition, reconcile_checked, reconcile_config, add_watched,
}
use go_scada.Alert.Service.Keeping.{evaluate_definition-keeps}
use go_scada.Alert.Service.Keeping.Walks.{evaluate_ancestors-keeps}
use go_scada.Alert.Service.Valid.{ValidStates, ValidStates-Keeps}
use go_scada.Alert.Service.Keeping.Receiving.{
  Receives, accept_input-keeps, watch_state-keeps, watch_members-keeps, drop_output-keeps,
}
use go_scada.Alert.Service.Keeping.Running.{Handles, Reachable-keeps}
use go_scada.Alert.Service.Events.{Reachable}

ValidStates-Receives : (env : Environment) → Receives env ValidStates
unfolding set_input
ValidStates-Receives env = record {
  keeps = ValidStates-Keeps env;
  properties = λ ps s h. h;
  inputs = λ subject d v s e h. h;
  watching = λ globals configs states_watch inputs running stopped s h. h;
}

module _ (env : Environment) where
  remove_found-valid :
      (subject : Text) (o : Option Definition) (s : Service)
      → ValidStates s
      → ValidStates (remove_found subject o s)
  unfolding remove_found unhook_parents
  remove_found-valid subject none s h = h
  remove_found-valid subject (some d) s h = h

  remove_definition-valid :
      (subject : Text) (s : Service) → ValidStates s → ValidStates (remove_definition subject s)
  unfolding remove_definition
  remove_definition-valid subject s h =
      remove_found-valid subject (lookup subject s.definitions) s h

  add_summary-valid :
      (subject : Text) (d : Definition) (s : Service)
      → ValidStates s
      → ValidStates (add_summary env subject d s)
  unfolding add_summary hook_parents
  add_summary-valid subject d s h =
      if_cases ValidStates (summary_cycle d.output (hook_parents subject d s)) _ _
        (λ _.
          drop_output-keeps env ValidStates (ValidStates-Receives env) d.output _
            (remove_definition-valid subject (hook_parents subject d s) h))
        (λ _. evaluate_ancestors-keeps env ValidStates (ValidStates-Keeps env) d.output _ (
          evaluate_definition-keeps env ValidStates (ValidStates-Keeps env) subject _ (
            watch_members-keeps env ValidStates (ValidStates-Receives env)
              (summary_members d.config) (hook_parents subject d s) h)))

  first_input-valid :
      (subject : Text) (d : Definition) (o : Option Value) (s : Service)
      → ValidStates s
      → ValidStates (first_input env subject d o s)
  unfolding first_input
  first_input-valid subject d none s h = h
  first_input-valid subject d (some v) s h =
      accept_input-keeps env ValidStates (ValidStates-Receives env) subject d.identity v s h

  add_watched-valid :
      (subject : Text) (d : Definition) (o : Option (List Text)) (s : Service)
      → ValidStates s
      → ValidStates (add_watched env subject d o s)
  unfolding add_watched
  add_watched-valid subject d none s h = h
  add_watched-valid subject d (some names) s h =
      let watched = record (tick s) { inputs = some (d.source ∷ names) } in
      if_cases ValidStates (env.watches s.calls d.source) _ _
        (λ _. first_input-valid subject d (env.get_any watched.calls d.source) (tick watched) h)
        (λ _.
          drop_output-keeps env ValidStates (ValidStates-Receives env) d.output _
            (remove_definition-valid subject (tick s) h))

  store_definition-valid :
      (subject : Text) (d : Definition) (s : Service)
      → ValidStates s
      → ValidStates (store_definition env subject d s)
  unfolding store_definition
  store_definition-valid subject d s h = h

  add_definition-valid :
      (subject raw : Text) (a : Accepted) (s : Service)
      → ValidStates s
      → ValidStates (add_definition env subject raw a s)
  unfolding add_definition
  add_definition-valid subject raw a s h =
      let d : Definition = record {
        identity = s.allocated;
        raw = raw;
        config = a.config;
        output = a.output;
        source = a.source;
        input = none;
      } in
      let stored = watch_state env a.output (store_definition env subject d s) in
      let kept : ValidStates stored =
        watch_state-keeps env ValidStates (ValidStates-Receives env) a.output
          (store_definition env subject d s) (store_definition-valid subject d s h) in
      if_cases ValidStates (is_summary a.config.kind) _ _
        (λ _. add_summary-valid subject d stored kept)
        (λ _. add_watched-valid subject d stored.inputs stored kept)

  reject_config-valid :
      (r : Result AlertError Text) (s : Service)
      → ValidStates s
      → ValidStates (reject_config env r s)
  unfolding reject_config
  reject_config-valid (err e) s h = h
  reject_config-valid (ok output) s h =
      drop_output-keeps env ValidStates (ValidStates-Receives env) output s h

  reconcile_checked-valid :
      (subject raw : Text) (r : Result AlertError Accepted) (s : Service)
      → ValidStates s
      → ValidStates (reconcile_checked env subject raw r s)
  unfolding reconcile_checked
  reconcile_checked-valid subject raw (err e) s h = reject_config-valid (output_subject subject) s h
  reconcile_checked-valid subject raw (ok a) s h =
      if_cases ValidStates a.config.enabled _ _ (λ _. add_definition-valid subject raw a s h)
        (λ _. drop_output-keeps env ValidStates (ValidStates-Receives env) a.output s h)

  pub reconcile_config-valid :
      (subject raw : Text) (s : Service)
      → ValidStates s
      → ValidStates (reconcile_config env subject raw s)
  unfolding reconcile_config
  reconcile_config-valid subject raw s h =
      reconcile_checked-valid subject raw (check_config env subject raw) _
        (remove_definition-valid subject s h)

ValidStates-Handles : (env : Environment) → Handles env ValidStates
ValidStates-Handles env = record {
  receives = ValidStates-Receives env;
  configures = reconcile_config-valid env;
}

-- From a start of the service on, and after any callbacks in any order with whatever contents, every
-- runtime state it keeps passes Validate.
pub Reachable-ValidStates : (env : Environment) (s : Service) → Reachable env s → ValidStates s
Reachable-ValidStates env s r = Reachable-keeps env ValidStates (ValidStates-Handles env) tt s r
