-- ===== src/Modbus/Service/Reconciling.antt =====
-- Every handler of modbus/service.go keeps the workers in step with the definitions.
use go_scada.Base.{
  Text, Bool, true, false, ◌≡◌, Option, none, some, text_eq, if◌then◌else◌, lookup, lookup-insert,
  lookup-remove, Once, refl, sym, ◌∙◌, ap, subst, arith, Bool-cases, inl, inr, if_cases,
}
use go_scada.Modbus.Service.{
  Environment, ConnectionDefinition, Worker, Service, worker_for, stop_worker, restart_connection,
  invalidate_connection, read_connection, same_connection, define_connection, restart_if_started,
  apply_connection, reconcile_connection,
}
use go_scada.Modbus.Service.Workers.{SyncAt, InSync, restart-SyncAt}

module _ (env : Environment) where
  pub restart_if_started-SyncAt :
      (subject : Text) (s : Service) (c : Text)
      → (text_eq subject c ≡ false → SyncAt env s c)
      → (s.started ≡ false → SyncAt env s c)
      → SyncAt env (restart_if_started env subject s) c
  unfolding restart_if_started
  restart_if_started-SyncAt subject s c other idle =
      if_cases (λ t. SyncAt env t c) s.started (restart_connection env subject s) s
        (λ on. restart-SyncAt env subject s c on other) idle

  pub idle-SyncAt :
      (s : Service) (c : Text) → SyncAt env s c → s.started ≡ false → lookup c s.workers ≡ none
  idle-SyncAt s c h off = h ∙ rw off refl

  pub restart_if_started-points :
      (subject : Text) (s : Service) → (restart_if_started env subject s).points ≡ s.points
  unfolding restart_if_started restart_connection stop_worker
  restart_if_started-points subject s = ground arith

  same_points :
      (s t : Service)
      → InSync env s
      → t.points ≡ s.points
      → ((c : Text) → SyncAt env t c)
      → InSync env t
  same_points s t h e workers = record {
    workers = workers;
    once = subst Once (sym e) h.once;
    named = λ name p l. h.named name p (ap (lookup name) (sym e) ∙ l);
  }

  define_connection-SyncAt :
      (subject c : Text) (d : ConnectionDefinition) (s : Service)
      → InSync env s
      → text_eq subject c ≡ false
      → SyncAt env (define_connection env subject d s) c
  unfolding define_connection
  define_connection-SyncAt subject c d s h e =
      h.workers c ∙ rw (lookup-insert subject c d s.connections, e) refl

  define_connection-idle :
      (subject c : Text) (d : ConnectionDefinition) (s : Service)
      → InSync env s
      → s.started ≡ false
      → SyncAt env (define_connection env subject d s) c
  unfolding define_connection
  define_connection-idle subject c d s h off = idle-SyncAt s c (h.workers c) off ∙ rw off refl

  invalidate_connection-SyncAt :
      (subject c : Text) (s : Service)
      → InSync env s
      → SyncAt env (invalidate_connection env subject s) c
  unfolding invalidate_connection stop_worker worker_for
  invalidate_connection-SyncAt subject c s h = elim (Bool-cases (text_eq subject c)) [
    | inl e ↦
        rw (lookup-remove subject c s.workers, lookup-remove subject c s.connections, e)
          (none_if s.started)
    | inr e ↦
        rw (lookup-remove subject c s.workers, lookup-remove subject c s.connections, e)
          (h.workers c)
  ]
    where
      none_if : (b : Bool) → Path (Option Worker) none (if b then none else none)
      none_if true = refl
      none_if false = refl

  invalidate_connection-InSync :
      (subject : Text) (s : Service)
      → InSync env s
      → InSync env (invalidate_connection env subject s)
  unfolding invalidate_connection stop_worker
  invalidate_connection-InSync subject s h =
      same_points s _ h refl (λ c. invalidate_connection-SyncAt subject c s h)

  define_connection-InSync :
      (subject : Text) (d : ConnectionDefinition) (s : Service)
      → InSync env s
      → InSync env (restart_if_started env subject (define_connection env subject d s))
  unfolding define_connection
  define_connection-InSync subject d s h =
      same_points s _ h (restart_if_started-points subject _) (λ c.
        restart_if_started-SyncAt subject (define_connection env subject d s) c
          (λ e. define_connection-SyncAt subject c d s h e)
          (λ off. define_connection-idle subject c d s h off))

  pub reconcile_connection-InSync :
      (subject value : Text) (s : Service)
      → InSync env s
      → InSync env (reconcile_connection env subject value s)
  unfolding reconcile_connection apply_connection
  reconcile_connection-InSync subject value s h = applied (read_connection env value)
    where
      applied :
          (o : Option ConnectionDefinition) → InSync env (apply_connection env subject value o s)
      applied none = invalidate_connection-InSync subject s h
      applied (some d) =
          if_cases (InSync env) (same_connection env value (lookup subject s.connections)) _ _
            (λ _. h) (λ _. define_connection-InSync subject d s h)
