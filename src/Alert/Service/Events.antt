-- ===== src/Alert/Service/Events.antt =====
-- alert/service.go: what the running service hears, one callback at a time under its mutex, and the
-- services that follow from a start.
use go_scada.Base.{Text, ok, ◌≡◌}
use go_scada.Value.{Value}
use go_scada.Alert.Service.{Environment, Service, new_service}
use go_scada.Alert.Service.Handlers.{reconcile_property}
use go_scada.Alert.Service.Loading.{on_config, on_state, on_input, handle_created, run}

-- The callbacks of startWatches and subscribeGlobals.
pub data Event : Type 0 where
  config_arrives state_arrives input_arrives : Text → Value → Event
  property_arrives : Text → Text → Event
  subject_created : Text → Text → Event

unfoldable pub handle : Environment → Event → Service → Service
handle env (config_arrives subject v) s = on_config env subject v s
handle env (state_arrives subject v) s = on_state env subject v s
handle env (input_arrives subject v) s = on_input env subject v s
handle env (property_arrives subject raw) s = reconcile_property env subject raw s
handle env (subject_created subject suffix) s = handle_created env subject suffix s

-- The services after a start of a new one and any events.
pub data Reachable (env : Environment) : Service → Type 0 where
  started : (s : Service) → run env new_service ≡ (ok tt, s) → Reachable env s
  heard : (s : Service) (e : Event) → Reachable env s → Reachable env (handle env e s)
