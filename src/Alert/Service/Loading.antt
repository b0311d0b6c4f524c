-- ===== src/Alert/Service/Loading.antt =====
-- alert/service.go: Run up to its wait for the context, the loading of what is retained, the callbacks of
-- the subscriptions, and stop.
use go_scada.Base.{
  Text, Bool, true, false, List, [], ◌∷◌, ◌++◌, Option, none, some, ok, err, Check, if◌then◌else◌,
  codes, text_eq, text_lt, sort_by, trim_prefix, trim_suffix,
}
use go_scada.Value.{Value, string}
use go_scada.Alert.Model.{properties_prefix, config_suffix, alert_suffix}
use go_scada.Alert.Validation.{parse_state}
use go_scada.Alert.Service.{Environment, Service, tick}
use go_scada.Alert.Service.Ancestors.{evaluate_all_summaries}
use go_scada.Alert.Service.Handlers.{
  reconcile_property, reconcile_config, reconcile_state, accept_source, store_parsed,
}

abbrev pub configs_watch : Text
configs_watch = codes "alert-configs"

abbrev pub states_watch : Text
states_watch = codes "alert-states"

abbrev pub inputs_watch : Text
inputs_watch = codes "alert-inputs"

-- The other two subscriptions, by the subject they are about.
abbrev pub properties_subject : Text
properties_subject = trim_suffix properties_prefix (codes ".")

abbrev pub created_subject : Text
created_subject = codes "registry.subject.created"

pub data ServiceError : Type 0 where
  already_running : ServiceError
  not_started : Text → ServiceError
  states_not_listed properties_not_listed configs_not_listed : ServiceError
  known_not_listed : Text → ServiceError

abbrev pub Step : Type 0
Step = Service → Check ServiceError × Service

-- `if err := a(); err != nil { return err }`, then the rest.
abbrev pub then_step : Check ServiceError × Service → Step → Check ServiceError × Service
then_step (ok _, s) next = next s
then_step (err e, s) next = (err e, s)

-- The subscriptions are stopped.
abbrev pub stop_all : List Text → Service → Service
stop_all subscriptions s = record s { stopped = s.stopped ++ subscriptions }

-- The callbacks of the three exact watches. A value of another type is only logged.
module _ (env : Environment) where
  unfoldable pub on_config : Text → Value → Service → Service
  on_config subject (string raw) s = reconcile_config env subject raw s
  on_config subject _ s = s

  unfoldable pub on_state : Text → Value → Service → Service
  on_state subject (string raw) s = reconcile_state env subject raw s
  on_state subject _ s = s

  unfoldable pub on_input : Text → Value → Service → Service
  on_input subject v s = accept_source env subject v s

  -- WatchExact or a Subscribe, after which the rest goes on; the ones given are stopped on an error.
  unfoldable pub start_subscription : Text → List Text → Step → Step
  start_subscription name earlier next s =
      let goes_on = next (tick s) in
      if env.starts s.calls name
      then goes_on
      else (err (not_started name), stop_all earlier (tick s))

  -- The end of startWatches.
  unfoldable pub keep_watches : Step
  keep_watches s = (
    ok tt,
    record s {
      configs = some [];
      states_watch = some [];
      inputs = some [];
      globals = configs_watch ∷ states_watch ∷ inputs_watch ∷ [];
    },
  )

  unfoldable pub start_inputs : Step
  unfolding start_subscription
  start_inputs = start_subscription inputs_watch (configs_watch ∷ states_watch ∷ []) keep_watches

  unfoldable pub start_states : Step
  unfolding start_subscription
  start_states = start_subscription states_watch (configs_watch ∷ []) start_inputs

  unfoldable pub start_watches : Step
  unfolding start_subscription
  start_watches = start_subscription configs_watch [] start_states

  -- One subject that load goes over: what GetString gives is applied.
  unfoldable pub load_one :
      (Text → Text → Service → Service) → Text → Option Text → Service → Service
  load_one apply subject none s = tick s
  load_one apply subject (some raw) s = apply subject raw (tick s)

  unfoldable pub load_each : (Text → Text → Service → Service) → List Text → Service → Service
  unfolding load_one
  load_each apply [] s = s
  load_each apply (subject ∷ subjects) s =
      load_each apply subjects (load_one apply subject (env.get_string s.calls subject) s)

  unfoldable pub load : ServiceError → Option (List Text) → (Text → Text → Service → Service) → Step
  unfolding load_each
  load e none apply s = (err e, s)
  load e (some subjects) apply s = (ok tt, load_each apply (sort_by text_lt subjects) s)

  -- The callback that loads a state.
  unfoldable pub load_state : Text → Text → Service → Service
  load_state subject raw s = store_parsed subject (parse_state env.decode_state raw) s

  unfoldable pub load_states : Step
  load_states s = load states_not_listed (env.list_suffix s.calls alert_suffix) load_state (tick s)

  unfoldable pub load_properties : Step
  load_properties s =
      load properties_not_listed (env.list_prefix s.calls properties_subject)
        (reconcile_property env) (tick s)

  unfoldable pub load_configs : Step
  load_configs s =
      load configs_not_listed (env.list_suffix s.calls config_suffix) (reconcile_config env)
        (tick s)

  unfoldable pub summarize : Step
  summarize s = (ok tt, evaluate_all_summaries env s)

  unfoldable pub load_initial : Step
  load_initial s =
      then_step (load_states s)
        λ s1. then_step (load_properties s1) λ s2. then_step (load_configs s2) summarize

  -- An exact watch that is told of a subject, by Watch or by Add.
  unfoldable pub watched_if : Bool → Text → Option (List Text) → Option (List Text)
  watched_if true subject (some names) = some (subject ∷ names)
  watched_if _ subject names = names

  unfoldable pub watch_configs : List Text → Service → Service
  unfolding watched_if
  watch_configs [] s = s
  watch_configs (subject ∷ subjects) s =
      watch_configs subjects
        (record (tick s) { configs = watched_if (env.watches s.calls subject) subject s.configs })

  unfoldable pub watch_states : List Text → Service → Service
  unfolding watched_if
  watch_states [] s = s
  watch_states (subject ∷ subjects) s = watch_states subjects (record (tick s) {
    states_watch = watched_if (env.watches s.calls subject) subject s.states_watch;
  })

  -- watchKnown
  unfoldable pub watch_known : Text → Option (List Text) → (List Text → Service → Service) → Step
  watch_known suffix none watch_each s = (err (known_not_listed suffix), s)
  watch_known suffix (some subjects) watch_each s = (ok tt, watch_each subjects s)

  -- The subscriptions given are stopped if the step fails.
  unfoldable pub stop_on_error :
      List Text → Check ServiceError × Service → Check ServiceError × Service
  stop_on_error subscriptions (ok _, s) = (ok tt, s)
  stop_on_error subscriptions (err e, s) = (err e, stop_all subscriptions s)

  unfoldable pub watch_known_configs : Step
  unfolding watch_configs
  watch_known_configs s =
      watch_known config_suffix (env.list_suffix s.calls config_suffix) watch_configs (tick s)

  unfoldable pub watch_known_states : Step
  unfolding watch_states
  watch_known_states s =
      watch_known alert_suffix (env.list_suffix s.calls alert_suffix) watch_states (tick s)

  -- The end of subscribeGlobals.
  unfoldable pub keep_globals : Step
  keep_globals s =
      (ok tt, record s { globals = s.globals ++ properties_subject ∷ created_subject ∷ [] })

  -- subscribeGlobals after its two subscriptions.
  unfoldable pub watch_all_known : Step
  unfolding stop_on_error
  watch_all_known s =
      then_step
        (stop_on_error (properties_subject ∷ created_subject ∷ [])
          (then_step (watch_known_configs s) watch_known_states))
        keep_globals

  unfoldable pub subscribe_created : Step
  unfolding start_subscription
  subscribe_created = start_subscription created_subject (properties_subject ∷ []) watch_all_known

  unfoldable pub subscribe_globals : Step
  unfolding start_subscription
  subscribe_globals = start_subscription properties_subject [] subscribe_created

  -- handleCreated, for a subject and its suffix.
  unfoldable pub handle_created : Text → Text → Service → Service
  unfolding watch_configs watch_states
  handle_created subject suffix s =
      let configs = watch_configs (subject ∷ []) s in
      let states = watch_states (subject ∷ []) s in
      if text_eq suffix (trim_prefix config_suffix (codes "."))
      then configs
      else if text_eq suffix (trim_prefix alert_suffix (codes "."))
      then states
      else s

  -- stop
  unfoldable pub stop : Service → Service
  stop s = stop_all s.globals (record s {
    globals = [];
    configs = none;
    states_watch = none;
    inputs = none;
    running = false;
  })

  -- An error of a step stops the service.
  unfoldable pub stop_failed : Check ServiceError × Service → Check ServiceError × Service
  stop_failed (ok _, s) = (ok tt, s)
  stop_failed (err e, s) = (err e, stop s)

  -- loadInitial and subscribeGlobals.
  unfoldable pub load_and_subscribe : Step
  load_and_subscribe s = then_step (load_initial s) subscribe_globals

  -- Run up to `<-ctx.Done()`, which is followed by `stop` alone.
  unfoldable pub run : Step
  unfolding stop_failed
  run s =
      let started =
        stop_failed (then_step (start_watches (record s { running = true })) load_and_subscribe) in
      if s.running then (err already_running, s) else started
