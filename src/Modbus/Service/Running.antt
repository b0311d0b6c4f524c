-- ===== src/Modbus/Service/Running.antt =====
-- Sequences of what modbus/service.go does: handlers, polls, start and stop.
use go_scada.Base.{
  Text, true, false, ◌≡◌, List, [], ◌∷◌, Option, none, some, Dict, lookup, lookup-empty, Once, refl,
  sym, ◌∙◌, ap, arith, keys, mem_text, if_cases, insert, subst,
}
use go_scada.Value.{Value}
use go_scada.Modbus.Config.{Connection}
use go_scada.Modbus.Service.{
  Environment, ConnectionDefinition, PointDefinition, Worker, Service, new_service, worker_for,
  restart_connection, stop_worker, reconcile_connection, reconcile_address, restart_all,
  start_workers, stop, client_for, client_of,
}
use go_scada.Modbus.Service.Workers.{SyncAt, InSync, restart-SyncAt}
use go_scada.Modbus.Service.Reconciling.{reconcile_connection-InSync}
use go_scada.Modbus.Service.Readdressing.{reconcile_address-InSync}

-- One thing that happens to the service. `remembered` is what a poll publishes.
pub data Event : Type 0 where
  connection_update address_update : Text → Text → Event
  started stopped : Event
  polled : Text → Connection → Event
  remembered : Text → Value → Event

unfoldable pub handle : Environment → Event → Service → Service
handle env (connection_update subject value) s = reconcile_connection env subject value s
handle env (address_update subject value) s = reconcile_address env subject value s
handle env started s = start_workers env s
handle env stopped s = stop s
handle env (polled subject connection) s = (client_for subject connection s).1
handle env (remembered subject value) s = record s {
  last_published = insert subject value s.last_published;
}

unfoldable pub handle_all : Environment → List Event → Service → Service
handle_all env [] s = s
handle_all env (e ∷ es) s = handle_all env es (handle env e s)

module _ (env : Environment) where
  restart_all-SyncAt :
      (subjects : List Text) (s : Service) (c : Text)
      → s.started ≡ true
      → (mem_text c subjects ≡ false → SyncAt env s c)
      → SyncAt env (restart_all env subjects s) c
  unfolding restart_all mem_text restart_connection stop_worker
  restart_all-SyncAt [] s c on other = other refl
  restart_all-SyncAt (x ∷ xs) s c on other =
      restart_all-SyncAt xs (restart_connection env x s) c on
        (λ absent. restart-SyncAt env x s c on (λ k. other (ground (arith, absent, k))))

  restart_all-points :
      (subjects : List Text) (s : Service) → (restart_all env subjects s).points ≡ s.points
  unfolding restart_all restart_connection stop_worker
  restart_all-points [] s = refl
  restart_all-points (x ∷ xs) s = restart_all-points xs (restart_connection env x s)

  lookup-absent :
      (c : Text) (m : Dict ConnectionDefinition) → mem_text c (keys m) ≡ false → lookup c m ≡ none
  unfolding lookup mem_text
  lookup-absent c [] h = refl
  lookup-absent c ((k, d) ∷ m) h = ground (arith, lookup-absent c m, h)

  unexpected :
      (s : Service) (c : Text)
      → SyncAt env s c
      → lookup c s.connections ≡ none
      → lookup c s.workers ≡ none
  unfolding worker_for
  unexpected s c h e =
      h ∙ rw e (if_cases (λ w. Path (Option Worker) w none) s.started _ _ (λ _. refl) (λ _. refl))

  start_workers-InSync : (s : Service) → InSync env s → InSync env (start_workers env s)
  unfolding start_workers worker_for
  start_workers-InSync s h = record {
    workers = λ c. restart_all-SyncAt (keys s.connections) _ c refl (λ absent.
        let missing = lookup-absent c s.connections absent in
        unexpected s c (h.workers c) missing ∙ rw missing refl);
    once = subst Once (sym (restart_all-points (keys s.connections) _)) h.once;
    named = λ name p l.
        h.named name p (ap (lookup name) (sym (restart_all-points (keys s.connections) _)) ∙ l);
  }

  polled-InSync :
      (subject : Text) (connection : Connection) (s : Service) (o : Option Connection)
      → InSync env s
      → InSync env (client_of subject connection o s).1
  unfolding client_of
  polled-InSync subject connection s none h = record {
    workers = h.workers;
    once = h.once;
    named = h.named;
  }
  polled-InSync subject connection s (some client) h = h

  handle-InSync : (e : Event) (s : Service) → InSync env s → InSync env (handle env e s)
  unfolding handle stop client_for client_of
  handle-InSync (connection_update subject value) s h =
      reconcile_connection-InSync env subject value s h
  handle-InSync (address_update subject value) s h = reconcile_address-InSync env subject value s h
  handle-InSync started s h = start_workers-InSync s h
  handle-InSync stopped s h = record {
    workers = λ c. lookup-empty c;
    once = h.once;
    named = h.named;
  }
  handle-InSync (polled subject connection) s h =
      polled-InSync subject connection s (lookup subject s.clients) h
  handle-InSync (remembered subject value) s h = record {
    workers = h.workers;
    once = h.once;
    named = h.named;
  }

  handle_all_keeps :
      (es : List Event) (s : Service) → InSync env s → InSync env (handle_all env es s)
  unfolding handle_all
  handle_all_keeps [] s h = h
  handle_all_keeps (e ∷ es) s h = handle_all_keeps es (handle env e s) (handle-InSync e s h)

  new_service-InSync : InSync env new_service
  new_service-InSync = record {
    workers = λ c. lookup-empty c;
    once = tt;
    named = λ name p l. absurd (ground (arith, lookup-empty {V = PointDefinition} name, l));
  }

  pub handle_all-InSync : (es : List Event) → InSync env (handle_all env es new_service)
  handle_all-InSync es = handle_all_keeps es new_service new_service-InSync
