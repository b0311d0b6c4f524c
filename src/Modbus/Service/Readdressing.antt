-- ===== src/Modbus/Service/Readdressing.antt =====
-- reconcileAddress and removePoint of modbus/service.go keep the workers in step.
use go_scada.Base.{
  Text, Bool, true, false, not, ◌&&◌, ◌≡◌, [], ◌∷◌, ◌++◌, Option, none, some, is_empty, text_eq,
  text_eq_iff, if◌then◌else◌, Dict, lookup, lookup-insert, lookup-remove, insert, remove, Once,
  Once-insert, Once-remove, refl, sym, ◌∙◌, ap, subst, arith, Bool-cases, inl, inr, Result, ok, err,
  if_cases,
}
use go_scada.Address.{Descriptor, AddressError, config_suffix}
use go_scada.Address.RoundTrip.{parse-IsValid}
use go_scada.Modbus.Service.{
  Environment, PointDefinition, ConnectionDefinition, Service, target_subject, connection_points,
  restart_connection, stop_worker, restart_if_started, forget_target, restart_of, remove_point,
  point_definition, read_point, same_point, restart_previous, define_point, restart_both,
  apply_point, reconcile_address,
}
use go_scada.Modbus.Service.Workers.{
  SyncAt, InSync, restart-SyncAt, connection_points-remove, connection_points-insert,
  worker_for-points,
}
use go_scada.Modbus.Service.Reconciling.{restart_if_started-SyncAt, idle-SyncAt}

module _ (env : Environment) where
  -- A service with the same workers, other points, and the same of everything else.
  with_points-SyncAt :
      (s : Service) (points : Dict PointDefinition) (c : Text)
      → SyncAt env s c
      → ((d : ConnectionDefinition)
          → connection_points env c d s.points ≡ connection_points env c d points)
      → SyncAt env (record s { points = points }) c
  with_points-SyncAt s points c h same =
      h
      ∙ ap (λ w. if s.started then w else none)
          (worker_for-points env c (lookup c s.connections) s.points points same)

  with_points-idle :
      (s : Service) (points : Dict PointDefinition) (c : Text)
      → SyncAt env s c
      → s.started ≡ false
      → SyncAt env (record s { points = points }) c
  with_points-idle s points c h off = idle-SyncAt env s c h off ∙ rw off refl

  removed-SyncAt :
      (subject c : Text) (s : Service) (o : Option PointDefinition)
      → InSync env s
      → lookup subject s.points ≡ o
      → SyncAt env (restart_of env o (record s { points = remove subject s.points })) c
  unfolding restart_of
  removed-SyncAt subject c s none h e = with_points-SyncAt s _ c (h.workers c) (λ d.
      sym (connection_points-remove env c d subject s.points h.once (λ p l. ground (arith, e, l))))
  removed-SyncAt subject c s (some q) h e =
      restart_if_started-SyncAt env q.descriptor.connection _ c
        (λ other. with_points-SyncAt s _ c (h.workers c) (λ d. sym (
          connection_points-remove env c d subject s.points h.once
            (λ p l. found_other p q (sym e ∙ l) other))))
        (λ off. with_points-idle s _ c (h.workers c) off)
    where
      found_other :
          (p r : PointDefinition)
          → Path (Option PointDefinition) (some r) (some p)
          → text_eq r.descriptor.connection c ≡ false
          → text_eq p.descriptor.connection c ≡ false
      found_other p r same k = cc

  remove_point-points :
      (subject : Text) (s : Service) → (remove_point env subject s).points ≡ remove subject s.points
  unfolding remove_point restart_of restart_if_started restart_connection stop_worker forget_target
  remove_point-points subject s = ground arith

  forgotten_if :
      (b : Bool) (subject c t : Text) (s : Service)
      → SyncAt env (if b then restart_connection env subject s else s) c
      → SyncAt env
          (if b
            then restart_connection env subject
                (record s { last_published = remove t s.last_published })
            else record s { last_published = remove t s.last_published })
          c
  unfolding restart_connection stop_worker
  forgotten_if true subject c t s h = h
  forgotten_if false subject c t s h = h

  -- What is published last does not matter to the workers.
  forgotten-SyncAt :
      (subject c : Text) (s : Service) (o : Option PointDefinition) (t : Option Text)
      → SyncAt env (restart_of env o s) c
      → SyncAt env (restart_of env o (forget_target env t s)) c
  unfolding restart_of forget_target restart_if_started restart_connection stop_worker
  forgotten-SyncAt subject c s none none h = h
  forgotten-SyncAt subject c s none (some t) h = h
  forgotten-SyncAt subject c s (some q) none h = h
  forgotten-SyncAt subject c s (some q) (some t) h =
      forgotten_if s.started q.descriptor.connection c t s h

  removed_lookup :
      (name subject : Text) (points : Dict PointDefinition) (p : PointDefinition)
      → lookup name (remove subject points) ≡ some p
      → lookup name points ≡ some p
  removed_lookup name subject points p l = ground (arith, lookup-remove subject name points, l)

  pub remove_point-InSync :
      (subject : Text) (s : Service) → InSync env s → InSync env (remove_point env subject s)
  unfolding remove_point
  remove_point-InSync subject s h = record {
    workers = λ c.
        forgotten-SyncAt subject c _ (lookup subject s.points) (target_subject subject)
          (removed-SyncAt subject c s (lookup subject s.points) h refl);
    once = subst Once (sym (remove_point-points subject s)) (Once-remove subject s.points h.once);
    named = λ name p l. h.named name p (
        removed_lookup name subject s.points p
          (ap (lookup name) (sym (remove_point-points subject s)) ∙ l));
  }

  suffixed-nonempty : (base : Text) → is_empty (base ++ config_suffix) ≡ false
  suffixed-nonempty [] = refl
  suffixed-nonempty (c ∷ base) = refl

  point_definition-found :
      (value : Text) (r : Result AddressError Descriptor) (p : PointDefinition)
      → point_definition env value r ≡ some p
      → r ≡ ok p.descriptor
  unfolding point_definition
  point_definition-found value (err e) p h = cc
  point_definition-found value (ok d) p h = ground (arith, h)

  read_point-named :
      (value : Text) (p : PointDefinition)
      → read_point env value ≡ some p
      → is_empty p.descriptor.connection ≡ false
  unfolding read_point
  read_point-named value p h =
      let parsed = point_definition-found value _ p h in
      let valid = parse-IsValid env.valid_json env.decode_descriptor value parsed in
      let (base, suffixed) = valid.connection in rw suffixed (suffixed-nonempty base)

  defined-SyncAt :
      (subject c : Text) (p : PointDefinition) (s : Service)
      → InSync env s
      → ((q : PointDefinition)
          → lookup subject s.points ≡ some q
          → text_eq q.descriptor.connection c ≡ false)
      → text_eq p.descriptor.connection c ≡ false
      → SyncAt env (define_point env subject p s) c
  unfolding define_point
  defined-SyncAt subject c p s h others other =
      with_points-SyncAt s _ c (h.workers c)
        (λ d. sym (connection_points-insert env c d subject p s.points h.once others other))

  -- The connection of the previous definition is restarted, or it is the new one's.
  previous-SyncAt :
      (subject c : Text) (p : PointDefinition) (s : Service) (o : Option PointDefinition)
      → InSync env s
      → lookup subject s.points ≡ o
      → s.started ≡ true
      → text_eq p.descriptor.connection c ≡ false
      → SyncAt env (restart_previous env o p.descriptor.connection (define_point env subject p s)) c
  unfolding restart_previous define_point
  previous-SyncAt subject c p s none h e on other =
      defined-SyncAt subject c p s h (λ q l. ground (arith, e, l)) other
  previous-SyncAt subject c p s (some q) h e on other =
      if_cases (λ t. SyncAt env t c)
        (not (is_empty q.descriptor.connection)
          && not (text_eq q.descriptor.connection p.descriptor.connection))
        _ _
        (λ _.
          restart-SyncAt env q.descriptor.connection _ c on
            (λ k. defined-SyncAt subject c p s h (λ r l. found r (sym e ∙ l) k) other))
        (λ same. defined-SyncAt subject c p s h (λ r l. found r (sym e ∙ l) (unchanged same)) other)
    where
      found :
          (r : PointDefinition)
          → Path (Option PointDefinition) (some q) (some r)
          → text_eq q.descriptor.connection c ≡ false
          → text_eq r.descriptor.connection c ≡ false
      found r eq k = cc

      unchanged :
          (not (is_empty q.descriptor.connection)
              && not (text_eq q.descriptor.connection p.descriptor.connection))
            ≡ false
          → text_eq q.descriptor.connection c ≡ false
      unchanged same =
          subst (λ k. text_eq k c ≡ false)
            (sym (
              (text_eq_iff q.descriptor.connection p.descriptor.connection).0
                (ground (arith, same, h.named subject q e))))
            other

  reconcile_address-points :
      (subject : Text) (p : PointDefinition) (s : Service) (o : Option PointDefinition)
      → (restart_both env o p.descriptor.connection (define_point env subject p s)).points
        ≡ insert subject p s.points
  unfolding restart_both restart_previous restart_connection stop_worker define_point
  reconcile_address-points subject p s none = ground arith
  reconcile_address-points subject p s (some q) = ground arith

  restart_previous-started :
      (o : Option PointDefinition) (connection : Text) (s : Service)
      → (restart_previous env o connection s).started ≡ s.started
  unfolding restart_previous restart_connection stop_worker
  restart_previous-started none connection s = refl
  restart_previous-started (some q) connection s = ground arith

  both-SyncAt :
      (subject c : Text) (p : PointDefinition) (s : Service) (o : Option PointDefinition)
      → InSync env s
      → lookup subject s.points ≡ o
      → SyncAt env (restart_both env o p.descriptor.connection (define_point env subject p s)) c
  unfolding restart_both define_point
  both-SyncAt subject c p s o h e =
      if_cases (λ t. SyncAt env t c) (define_point env subject p s).started _ _
        (λ on.
          restart-SyncAt env p.descriptor.connection _ c
            (restart_previous-started o p.descriptor.connection _ ∙ on)
            (λ other. previous-SyncAt subject c p s o h e on other))
        (λ off. with_points-idle s _ c (h.workers c) off)

  define_point-named :
      (subject name value : Text) (p q : PointDefinition) (s : Service)
      → InSync env s
      → read_point env value ≡ some p
      → lookup name (insert subject p s.points) ≡ some q
      → is_empty q.descriptor.connection ≡ false
  define_point-named subject name value p q s h read l = elim (Bool-cases (text_eq subject name)) [
    | inl e ↦
        subst (λ r. is_empty r.descriptor.connection ≡ false)
          (inserted (sym (lookup-insert subject name p s.points) ∙ l) e)
          (read_point-named value p read)
    | inr e ↦ h.named name q (kept (sym (lookup-insert subject name p s.points) ∙ l) e)
  ]
    where
      inserted :
          (if text_eq subject name then some p else lookup name s.points) ≡ some q
          → text_eq subject name ≡ true
          → p ≡ q
      inserted k e = cc

      kept :
          (if text_eq subject name then some p else lookup name s.points) ≡ some q
          → text_eq subject name ≡ false
          → lookup name s.points ≡ some q
      kept k e = cc

  pub reconcile_address-InSync :
      (subject value : Text) (s : Service)
      → InSync env s
      → InSync env (reconcile_address env subject value s)
  unfolding reconcile_address apply_point
  reconcile_address-InSync subject value s h = applied (read_point env value) refl
    where
      applied :
          (o : Option PointDefinition)
          → read_point env value ≡ o
          → InSync env (apply_point env subject value o s)
      applied none read = remove_point-InSync subject s h
      applied (some p) read =
          if_cases (InSync env) (same_point env value (lookup subject s.points)) _ _ (λ _. h)
            (λ _. record {
              workers = λ c. both-SyncAt subject c p s (lookup subject s.points) h refl;
              once =
                  subst Once (sym (reconcile_address-points subject p s (lookup subject s.points)))
                    (Once-insert subject p s.points h.once);
              named = λ name q l. define_point-named subject name value p q s h read (
                  ap (lookup name)
                    (sym (reconcile_address-points subject p s (lookup subject s.points)))
                  ∙ l);
            })
