-- ===== src/Alert/Service/Keeping/Running.antt =====
-- alert/service.go: what the start and every callback keep.
use go_scada.Base.{
  Text, true, List, [], ◌∷◌, Option, none, some, ok, err, Check, if_cases, text_lt, sort_by, subst,
  text_eq, trim_prefix, codes, false,
}
use go_scada.Value.{Value, string, bool, int64, float64}
use go_scada.Alert.Model.{alert_suffix, config_suffix}
use go_scada.Alert.Validation.{parse_state}
use go_scada.Alert.Service.{Environment, Service, new_service, tick}
use go_scada.Alert.Service.Loading.{
  ServiceError, Step, then_step, on_config, on_state, on_input, start_subscription, start_watches,
  load_each, load, load_state, load_initial, watch_configs, watch_states, watch_known,
  stop_on_error, subscribe_globals, handle_created, stop, stop_failed, run, states_not_listed,
  properties_not_listed, configs_not_listed, properties_subject, configs_watch, states_watch,
  inputs_watch, created_subject, load_one, start_states, start_inputs, keep_watches, load_states,
  load_properties, load_configs, summarize, watch_known_configs, watch_known_states, keep_globals,
  watch_all_known, subscribe_created, load_and_subscribe,
}
use go_scada.Alert.Service.Handlers.{reconcile_property, reconcile_config}
use go_scada.Alert.Service.Events.{
  Event, config_arrives, state_arrives, input_arrives, property_arrives, subject_created, handle,
  Reachable, started, heard,
}
use go_scada.Alert.Service.Keeping.Walks.{evaluate_all_summaries-keeps}
use go_scada.Alert.Service.Valid.{parse_state-valid}
use go_scada.Alert.Service.Keeping.Receiving.{
  Receives, reconcile_property-keeps, accept_source-keeps, reconcile_state-keeps,
  store_parsed-keeps,
}

-- The service that a step leaves, an error or not.
module _ (P : Service → Type 0) where
  abbrev Leaves : Check ServiceError × Service → Type 0
  Leaves (r, s) = P s

  abbrev Safe : Step → Type 0
  Safe step = (s : Service) → P s → Leaves (step s)

  then_step-Leaves :
      (r : Check ServiceError × Service) (next : Step)
      → Leaves r
      → Safe next
      → Leaves (then_step r next)
  then_step-Leaves (ok _, s) next h k = k s h
  then_step-Leaves (err e, s) next h k = h

-- Everything that the service does besides evaluations.
pub record Handles (env : Environment) (P : Service → Type 0) : Type 0 where
  pub receives : Receives env P
  pub configures : (subject raw : Text) (s : Service) → P s → P (reconcile_config env subject raw s)

module _ (env : Environment) (P : Service → Type 0) (handles : Handles env P) where
  start_subscription-Safe :
      (name : Text) (earlier : List Text) (next : Step)
      → Safe P next
      → Safe P (start_subscription env name earlier next)
  unfolding start_subscription
  start_subscription-Safe name earlier next k s h =
      if_cases (Leaves P) (env.starts s.calls name) _ _
        (λ _. k (tick s) (handles.receives.keeps.ticks s h))
        (λ _.
          handles.receives.watching s.globals s.configs s.states_watch s.inputs s.running _ (tick s)
            (handles.receives.keeps.ticks s h))

  start_watches-Safe : Safe P (start_watches env)
  unfolding start_watches start_states start_inputs keep_watches
  start_watches-Safe = start_subscription-Safe configs_watch [] (start_states env) (
      start_subscription-Safe states_watch (configs_watch ∷ []) (start_inputs env) (
        start_subscription-Safe inputs_watch (configs_watch ∷ states_watch ∷ []) (keep_watches env)
          (λ s h. handles.receives.watching _ _ _ _ s.running s.stopped s h)))

  load_each-keeps :
      (apply : Text → Text → Service → Service)
      → ((subject raw : Text) (s : Service) → P s → P (apply subject raw s))
      → (subjects : List Text) (s : Service) → P s
      → P (load_each env apply subjects s)
  unfolding load_each load_one
  load_each-keeps apply k [] s h = h
  load_each-keeps apply k (subject ∷ subjects) s h =
      load_each-keeps apply k subjects _ (one (env.get_string s.calls subject))
    where
      one : (o : Option Text) → P (load_one env apply subject o s)
      one none = handles.receives.keeps.ticks s h
      one (some raw) = k subject raw (tick s) (handles.receives.keeps.ticks s h)

  load-Safe :
      (e : ServiceError) (o : Option (List Text)) (apply : Text → Text → Service → Service)
      → ((subject raw : Text) (s : Service) → P s → P (apply subject raw s))
      → Safe P (load env e o apply)
  unfolding load
  load-Safe e none apply k s h = h
  load-Safe e (some subjects) apply k s h = load_each-keeps apply k (sort_by text_lt subjects) s h

  load_state-keeps : (subject raw : Text) (s : Service) → P s → P (load_state env subject raw s)
  unfolding load_state
  load_state-keeps subject raw s h =
      store_parsed-keeps env P handles.receives subject (parse_state env.decode_state raw) s
        (λ state e. parse_state-valid env raw state e) h

  load_states-Safe : Safe P (load_states env)
  unfolding load_states
  load_states-Safe s h =
      load-Safe states_not_listed (env.list_suffix s.calls alert_suffix) (load_state env)
        load_state-keeps (tick s) (handles.receives.keeps.ticks s h)

  load_properties-Safe : Safe P (load_properties env)
  unfolding load_properties
  load_properties-Safe s h =
      load-Safe properties_not_listed (env.list_prefix s.calls properties_subject)
        (reconcile_property env) (reconcile_property-keeps env P handles.receives) (tick s)
        (handles.receives.keeps.ticks s h)

  load_configs-Safe : Safe P (load_configs env)
  unfolding load_configs
  load_configs-Safe s h =
      load-Safe configs_not_listed (env.list_suffix s.calls config_suffix) (reconcile_config env)
        handles.configures (tick s) (handles.receives.keeps.ticks s h)

  summarize-Safe : Safe P (summarize env)
  unfolding summarize
  summarize-Safe s h = evaluate_all_summaries-keeps env P handles.receives.keeps s h

  load_initial-Safe : Safe P (load_initial env)
  unfolding load_initial
  load_initial-Safe s h = then_step-Leaves P (load_states env s) _ (load_states-Safe s h) λ s1 h1.
      then_step-Leaves P (load_properties env s1) _ (load_properties-Safe s1 h1) λ s2 h2.
        then_step-Leaves P (load_configs env s2) (summarize env) (load_configs-Safe s2 h2)
          summarize-Safe

  watch_configs-keeps :
      (subjects : List Text) (s : Service) → P s → P (watch_configs env subjects s)
  unfolding watch_configs
  watch_configs-keeps [] s h = h
  watch_configs-keeps (subject ∷ subjects) s h = watch_configs-keeps subjects _ (
      handles.receives.watching s.globals _ s.states_watch s.inputs s.running s.stopped (tick s)
        (handles.receives.keeps.ticks s h))

  watch_states-keeps : (subjects : List Text) (s : Service) → P s → P (watch_states env subjects s)
  unfolding watch_states
  watch_states-keeps [] s h = h
  watch_states-keeps (subject ∷ subjects) s h = watch_states-keeps subjects _ (
      handles.receives.watching s.globals s.configs _ s.inputs s.running s.stopped (tick s)
        (handles.receives.keeps.ticks s h))

  watch_known-Safe :
      (suffix : Text) (o : Option (List Text)) (watch_each : List Text → Service → Service)
      → ((subjects : List Text) (s : Service) → P s → P (watch_each subjects s))
      → Safe P (watch_known env suffix o watch_each)
  unfolding watch_known
  watch_known-Safe suffix none watch_each k s h = h
  watch_known-Safe suffix (some subjects) watch_each k s h = k subjects s h

  stop_on_error-Leaves :
      (subscriptions : List Text) (r : Check ServiceError × Service)
      → Leaves P r
      → Leaves P (stop_on_error env subscriptions r)
  unfolding stop_on_error
  stop_on_error-Leaves subscriptions (ok _, s) h = h
  stop_on_error-Leaves subscriptions (err e, s) h =
      handles.receives.watching s.globals s.configs s.states_watch s.inputs s.running _ s h

  watch_known_configs-Safe : Safe P (watch_known_configs env)
  unfolding watch_known_configs
  watch_known_configs-Safe s h =
      watch_known-Safe config_suffix (env.list_suffix s.calls config_suffix) (watch_configs env)
        watch_configs-keeps (tick s) (handles.receives.keeps.ticks s h)

  watch_known_states-Safe : Safe P (watch_known_states env)
  unfolding watch_known_states
  watch_known_states-Safe s h =
      watch_known-Safe alert_suffix (env.list_suffix s.calls alert_suffix) (watch_states env)
        watch_states-keeps (tick s) (handles.receives.keeps.ticks s h)

  watch_all_known-Safe : Safe P (watch_all_known env)
  unfolding watch_all_known keep_globals
  watch_all_known-Safe s h =
      then_step-Leaves P _ (keep_globals env)
        (stop_on_error-Leaves (properties_subject ∷ created_subject ∷ [])
          (then_step (watch_known_configs env s) (watch_known_states env))
          (then_step-Leaves P (watch_known_configs env s) (watch_known_states env)
            (watch_known_configs-Safe s h) watch_known_states-Safe))
        (λ t k.
          handles.receives.watching _ t.configs t.states_watch t.inputs t.running t.stopped t k)

  subscribe_globals-Safe : Safe P (subscribe_globals env)
  unfolding subscribe_globals subscribe_created
  subscribe_globals-Safe = start_subscription-Safe properties_subject [] (subscribe_created env) (
      start_subscription-Safe created_subject (properties_subject ∷ []) (watch_all_known env)
        watch_all_known-Safe)

  stop-keeps : (s : Service) → P s → P (stop env s)
  unfolding stop
  stop-keeps s h = handles.receives.watching [] none none none false _ s h

  stop_failed-Leaves :
      (r : Check ServiceError × Service) → Leaves P r → Leaves P (stop_failed env r)
  unfolding stop_failed
  stop_failed-Leaves (ok _, s) h = h
  stop_failed-Leaves (err e, s) h = stop-keeps s h

  load_and_subscribe-Safe : Safe P (load_and_subscribe env)
  unfolding load_and_subscribe
  load_and_subscribe-Safe s h =
      then_step-Leaves P (load_initial env s) (subscribe_globals env) (load_initial-Safe s h)
        subscribe_globals-Safe

  run-Safe : Safe P (run env)
  unfolding run
  run-Safe s h =
      if_cases (Leaves P) s.running _ _ (λ _. h)
        (λ _. stop_failed-Leaves _ (
          then_step-Leaves P (start_watches env (record s { running = true }))
            (load_and_subscribe env)
            (start_watches-Safe (record s { running = true })
              (handles.receives.watching s.globals s.configs s.states_watch s.inputs true s.stopped
                s h))
            load_and_subscribe-Safe))

  on_config-keeps : (subject : Text) (v : Value) (s : Service) → P s → P (on_config env subject v s)
  unfolding on_config
  on_config-keeps subject (string raw) s h = handles.configures subject raw s h
  on_config-keeps subject (bool _) s h = h
  on_config-keeps subject (int64 _) s h = h
  on_config-keeps subject (float64 _) s h = h

  on_state-keeps : (subject : Text) (v : Value) (s : Service) → P s → P (on_state env subject v s)
  unfolding on_state
  on_state-keeps subject (string raw) s h =
      reconcile_state-keeps env P handles.receives subject raw s h
  on_state-keeps subject (bool _) s h = h
  on_state-keeps subject (int64 _) s h = h
  on_state-keeps subject (float64 _) s h = h

  handle_created-keeps :
      (subject suffix : Text) (s : Service) → P s → P (handle_created env subject suffix s)
  unfolding handle_created
  handle_created-keeps subject suffix s h =
      if_cases P (text_eq suffix (trim_prefix config_suffix (codes "."))) _ _
        (λ _. watch_configs-keeps (subject ∷ []) s h)
        (λ _.
          if_cases P (text_eq suffix (trim_prefix alert_suffix (codes "."))) _ _
            (λ _. watch_states-keeps (subject ∷ []) s h) (λ _. h))

  handle-keeps : (e : Event) (s : Service) → P s → P (handle env e s)
  unfolding handle on_input
  handle-keeps (config_arrives subject v) s h = on_config-keeps subject v s h
  handle-keeps (state_arrives subject v) s h = on_state-keeps subject v s h
  handle-keeps (input_arrives subject v) s h =
      accept_source-keeps env P handles.receives subject v s h
  handle-keeps (property_arrives subject raw) s h =
      reconcile_property-keeps env P handles.receives subject raw s h
  handle-keeps (subject_created subject suffix) s h = handle_created-keeps subject suffix s h

  -- A property that holds at first and that every step keeps holds of every service that follows from a
  -- start.
  pub Reachable-keeps : P new_service → (s : Service) → Reachable env s → P s
  Reachable-keeps h _ (started s e) = subst (Leaves P) e (run-Safe new_service h)
  Reachable-keeps h _ (heard s e r) = handle-keeps e s (Reachable-keeps h s r)
