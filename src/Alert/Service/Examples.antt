-- ===== src/Alert/Service/Examples.antt =====
-- Tests of the alert service, and its theorems at concrete services.
use go_scada.Base.{
  sort_by, ℕ, zero, suc, ◌+◌, Text, Bool, true, false, ◌≡◌, refl, [], ◌∷◌, Option, none, some, ok,
  codes, lookup, pos, text_eq, if◌then◌else◌, mem_text, ◌↔◌, ◌⊎◌, length, ◌≢◌,
}
use go_scada.Json.{Trailing, at_end}
use go_scada.Alert.Model.{current_version, binary, summary, Config, Mapping, Time}
use go_scada.Alert.Service.{Environment, Service, new_service, summary_members}
use go_scada.Alert.Service.Ancestors.{evaluate_all_summaries, summaries_passes, summaries_pass}
use go_scada.Alert.Service.Loading.{
  run, start_watches, start_states, start_inputs, start_subscription, keep_watches,
  load_and_subscribe, load_initial, load_states, load_properties, load_configs, load, load_each,
  summarize, subscribe_globals, subscribe_created, watch_all_known, watch_known_configs,
  watch_known_states, watch_known, watch_configs, watch_states, keep_globals, stop_on_error,
  stop_failed,
}
use go_scada.Value.{Value, bool, string}
use go_scada.Alert.Model.{State, no_presentation}
use go_scada.Alert.Validation.{
  validate_state, validate_flags, validate_presentation, validate_members,
}
use go_scada.Alert.Evaluator.{evaluate_binary}
use go_scada.Alert.Service.{Definition, all_members}
use go_scada.Alert.Service.Events.{config_arrives, input_arrives, handle, Reachable, started, heard}
use go_scada.Alert.Service.Evaluating.{outcome, store_and_publish, evaluate_definition}
use go_scada.Alert.Service.Storing.{
  Applied, applied_evaluation, evaluate_definition_total, Offered, is_settled,
  store_and_publish_lem, store_and_publish_again,
}
use go_scada.Alert.Service.Ancestors.{walk_ancestors, acknowledge_tree}
use go_scada.Alert.Service.Ancestors.Reaching.{walk_ancestors_terminates}
use go_scada.Alert.Service.Ancestors.Depth.{acknowledge_all_ends}
use go_scada.Alert.Service.Handlers.{acknowledge_all}
use go_scada.Alert.Service.Cycles.{
  members_of, members_in, summary_cycle, summary_search, out_of_fuel, visit, visit_all,
}
use go_scada.Alert.Service.Cycles.Search.{HasCycle}
use go_scada.Alert.Service.Cycles.Order.{summary_cycle_iff, summary_search_returns}
use go_scada.Alert.Service.Valid.{ValidStates}
use go_scada.Alert.Service.Valid.Configured.{Reachable-ValidStates}
use go_scada.Alert.Service.Index.{IsIndexed}
use go_scada.Alert.Service.Index.Kept.{Reachable-IsIndexed}

abbrev door_config : Text
door_config = codes "door.alert_config"

abbrev door_alert : Text
door_alert = codes "door.alert"

abbrev site_config : Text
site_config = codes "site.alert_config"

abbrev site_alert : Text
site_alert = codes "site.alert"

abbrev mapping : Text → Mapping
mapping text = record { property = []; text = text }

-- Both values of the door are good.
abbrev door : Config
door = record {
  version = current_version;
  enabled = true;
  kind = binary;
  binary = some (record {
    bad_value = true;
    when_true = mapping (codes "open");
    when_false = mapping (codes "closed");
  });
  value = none;
  summary = none;
}

abbrev site_of : Text → Config
site_of member = record {
  version = current_version;
  enabled = true;
  kind = summary;
  binary = none;
  value = none;
  summary = some (record { members = member ∷ [] });
}

-- "S" stands for the summary of the door, "L" for one of the site itself, and anything else for the door.
abbrev decode : Text → Option (Config × Trailing)
decode raw = some (
  if text_eq raw (codes "S")
      then site_of door_alert
      else if text_eq raw (codes "L")
      then site_of site_alert
      else door,
  at_end,
)

abbrev is_later : ℕ → Bool
is_later zero = false
is_later (suc n) = true

abbrev noon : Time
noon = record { instant = 12; offset = pos 0 }

-- A stream that holds nothing and where only a PublishString that is the first call fails.
abbrev env : Environment
env = record {
  decode_properties = λ raw. none;
  decode_config = decode;
  decode_state = λ raw. none;
  encode_state = λ s. s.text;
  parse_float = λ t. none;
  now = λ n. noon;
  new_id = λ n. codes "id";
  publishes = λ n subject encoded. is_later n;
  watches = λ n subject. true;
  get_string = λ n subject. none;
  get_any = λ n subject. none;
  list_suffix = λ n suffix. some [];
  list_prefix = λ n prefix. some [];
  starts = λ n name. true;
}

abbrev start : Service
start = (run env new_service).1

start-run : run env new_service ≡ (ok tt, start)
unfolding run start_watches start_states start_inputs start_subscription keep_watches
    load_and_subscribe load_initial load_states load_properties load_configs load load_each
    summarize subscribe_globals subscribe_created watch_all_known watch_known_configs
    watch_known_states watch_known watch_configs watch_states keep_globals stop_on_error stop_failed
    sort_by evaluate_all_summaries summaries_passes summaries_pass
start-run = refl

-- The door and the summary of it are configured, and an input arrives.
abbrev with_door : Service
with_door = handle env (config_arrives door_config (string (codes "D"))) start

abbrev with_site : Service
with_site = handle env (config_arrives site_config (string (codes "S"))) with_door

abbrev with_input : Service
with_input = handle env (input_arrives (codes "door") (bool true)) with_site

with_input-Reachable : Reachable env with_input
with_input-Reachable = heard with_site (input_arrives (codes "door") (bool true)) (
    heard with_door (config_arrives site_config (string (codes "S")))
      (heard start (config_arrives door_config (string (codes "D"))) (started start start-run)))

Reachable-ValidStates_example : ValidStates with_input
Reachable-ValidStates_example = Reachable-ValidStates env with_input with_input-Reachable

Reachable-IsIndexed_example : IsIndexed with_input
Reachable-IsIndexed_example = Reachable-IsIndexed env with_input with_input-Reachable

abbrev definition : ℕ → Config → Text → Text → Option Value → Definition
definition identity config output source input = record {
  identity = identity;
  raw = [];
  config = config;
  output = output;
  source = source;
  input = input;
}

abbrev door_definition : Definition
door_definition = definition 0 door door_alert (codes "door") (some (bool true))

-- A service with the door and a summary of one member.
abbrev site_service : Text → Service
site_service member = record new_service {
  definitions =
      (site_config, definition 1 (site_of member) site_alert (codes "site") none)
      ∷ (door_config, door_definition)
      ∷ [];
  by_output = (site_alert, site_config) ∷ (door_alert, door_config) ∷ [];
  parents = (member, site_config ∷ []) ∷ [];
}

walk_ancestors_terminates_example :
    (walk_ancestors env site_alert [] (site_service site_alert)).queue ≡ []
walk_ancestors_terminates_example =
    walk_ancestors_terminates env site_alert (site_service site_alert)

acknowledge_all_ends_example :
    acknowledge_tree env
      (3 + suc (suc (length (all_members (site_service site_alert).definitions))))
      []
      site_alert
      (site_service site_alert)
    ≡ acknowledge_all env site_alert (site_service site_alert)
acknowledge_all_ends_example = acknowledge_all_ends env site_alert (site_service site_alert) 3

summary_search_returns_example : summary_search site_alert (site_service site_alert) ≢ out_of_fuel
summary_search_returns_example = summary_search_returns site_alert (site_service site_alert)

summary_cycle_iff_example :
    (summary_cycle site_alert (site_service site_alert) ≡ true)
    ↔ HasCycle (members_of (site_service site_alert)) site_alert
summary_cycle_iff_example = summary_cycle_iff site_alert (site_service site_alert)

-- The search finds the cycle of the site, and none above the door.
cycles :
    (summary_cycle site_alert (site_service site_alert) ≡ true)
    × (summary_cycle site_alert (site_service door_alert) ≡ false)
unfolding summary_cycle summary_search visit visit_all members_in mem_text lookup text_eq
    summary_members
cycles = (refl, refl)

evaluate_definition_total_example :
    Applied env door_alert
      (applied_evaluation env (
        evaluate_binary
          (record {
            bad_value = true;
            when_true = mapping (codes "open");
            when_false = mapping (codes "closed");
          })
          true
          []))
      (site_service door_alert)
      (evaluate_definition env door_config (site_service door_alert))
unfolding lookup outcome text_eq
evaluate_definition_total_example =
    evaluate_definition_total env door_config door_definition
      (evaluate_binary
        (record {
          bad_value = true;
          when_true = mapping (codes "open");
          when_false = mapping (codes "closed");
        })
        true [])
      (site_service door_alert) tt refl refl refl

abbrev quiet : State
quiet = record {
  version = current_version;
  active = false;
  pending = false;
  presentation = no_presentation;
  text = codes "closed";
  acknowledged = true;
  came_time = none;
  went_time = none;
  ack_time = none;
  dominant = [];
  members = [];
  episode_id = [];
}

quiet-valid : validate_state quiet ≡ ok tt
unfolding validate_state validate_flags validate_presentation validate_members
quiet-valid = refl

store_and_publish_lem_example :
    (is_settled env door_alert quiet new_service ≡ true)
      × (store_and_publish env door_alert quiet new_service ≡ new_service)
      × (lookup door_alert new_service.states ≡ some quiet)
    ⊎ (is_settled env door_alert quiet new_service ≡ false)
      × Offered env door_alert quiet new_service
          (store_and_publish env door_alert quiet new_service)
store_and_publish_lem_example = store_and_publish_lem env door_alert quiet new_service quiet-valid

store_and_publish_again_example :
    (store_and_publish env door_alert quiet
      (store_and_publish env door_alert quiet new_service)).sent
    ≡ (door_alert, codes "closed") ∷ []
unfolding lookup
store_and_publish_again_example =
    store_and_publish_again env door_alert quiet new_service quiet-valid refl refl refl
