-- ===== src/Modbus/Service/Workers.antt =====
-- The workers of modbus/service.go follow the definitions of connections and points.
use go_scada.Base.{
  Text, true, false, ◌≡◌, [], ◌∷◌, Option, none, some, is_empty, text_eq, text_eq_iff,
  if◌then◌else◌, Dict, lookup, lookup-insert, lookup-remove, insert, remove, Once, refl, sym, ◌∙◌,
  ap, arith, Bool-cases, inl, inr,
}
use go_scada.Modbus.Config.{parse_point}
use go_scada.Modbus.Service.{
  Environment, PointDefinition, ConnectionDefinition, Worker, Service, target_subject, poll_point,
  append_point, belongs, connection_points, worker_for, start_worker, stop_worker,
  restart_connection,
}

-- The worker that a connection has by the definitions.
abbrev pub expected : Environment → Service → Text → Option Worker
expected env s c = if s.started then worker_for env c s.points (lookup c s.connections) else none

abbrev pub SyncAt : Environment → Service → Text → Type 0
SyncAt env s c = lookup c s.workers ≡ expected env s c

-- Every connection has the worker that the definitions give it. A point is stored once, with the name
-- of a connection.
pub record InSync (env : Environment) (s : Service) : Type 0 where
  pub workers : (c : Text) → lookup c s.workers ≡ expected env s c
  pub once : Once s.points
  pub named :
      (name : Text) (p : PointDefinition)
      → lookup name s.points ≡ some p
      → is_empty p.descriptor.connection ≡ false

module _ (env : Environment) where
  -- Restarting sets the worker of the connection, and no other one.
  restart_connection-lookup :
      (subject c : Text) (s : Service)
      → lookup c (restart_connection env subject s).workers ≡ (
          if text_eq subject c
          then worker_for env subject s.points (lookup subject s.connections)
          else lookup c s.workers)
  unfolding restart_connection stop_worker start_worker
  restart_connection-lookup subject c s =
      started (worker_for env subject s.points (lookup subject s.connections))
    where
      started :
          (o : Option Worker)
          → lookup c (start_worker env subject o (remove subject s.workers))
            ≡ (if text_eq subject c then o else lookup c s.workers)
      started none = lookup-remove subject c s.workers
      started (some w) = elim (Bool-cases (text_eq subject c)) [
        | inl e ↦ rw (lookup-insert, e) refl
        | inr e ↦ rw (lookup-insert, lookup-remove, e) refl
      ]

  -- A restart brings its connection in step, and leaves the others as they were.
  pub restart-SyncAt :
      (subject : Text) (s : Service) (c : Text)
      → s.started ≡ true
      → (text_eq subject c ≡ false → SyncAt env s c)
      → SyncAt env (restart_connection env subject s) c
  unfolding restart_connection stop_worker
  restart-SyncAt subject s c on other = elim (Bool-cases (text_eq subject c)) [
    | inl e ↦
        let same : subject ≡ c = (text_eq_iff subject c).0 e in
        restart_connection-lookup subject c s
        ∙ rw (e, on) (ap (λ k. worker_for env k s.points (lookup k s.connections)) same)
    | inr e ↦ restart_connection-lookup subject c s ∙ rw e (other e)
  ]

  -- Only the definition of a point of the connection matters to the points of a connection.
  poll_point-other :
      (c : Text) (d : ConnectionDefinition) (name : Text) (p : PointDefinition)
      → text_eq p.descriptor.connection c ≡ false
      → poll_point p
          (belongs env c d p)
          (parse_point env.decode_address_config p.descriptor d.connection)
          (target_subject name)
        ≡ none
  unfolding poll_point belongs
  poll_point-other c d name p h = rw h refl

  gone :
      (k name : Text) (rest : Dict PointDefinition) (p : PointDefinition)
      → lookup k rest ≡ none
      → k ≡ name
      → lookup name rest ≡ some p
      → ⊥
  gone k name rest p fresh same l = ground (arith, ap (λ n. lookup n rest) same)

  pub connection_points-remove :
      (c : Text) (d : ConnectionDefinition) (name : Text) (points : Dict PointDefinition)
      → Once points
      → ((p : PointDefinition)
          → lookup name points ≡ some p
          → text_eq p.descriptor.connection c ≡ false)
      → connection_points env c d (remove name points) ≡ connection_points env c d points
  unfolding connection_points remove lookup append_point
  connection_points-remove c d name [] once h = refl
  connection_points-remove c d name ((k, q) ∷ rest) (fresh, once) h =
      elim (Bool-cases (text_eq k name)) [
        | inl e ↦ rw e (
            connection_points-remove c d name rest once
              (λ p l. absurd (gone k name rest p fresh ((text_eq_iff k name).0 e) l))
            ∙ sym (
                ap (λ o. append_point o (connection_points env c d rest))
                  (poll_point-other c d k q (h q (rw e refl)))))
        | inr e ↦ rw e (
            ap (append_point _) (connection_points-remove c d name rest once (λ p l. h p (rw e l))))
      ]

  pub connection_points-insert :
      (c : Text) (d : ConnectionDefinition) (name : Text) (q : PointDefinition)
      (points : Dict PointDefinition)
      → Once points
      → ((p : PointDefinition)
          → lookup name points ≡ some p
          → text_eq p.descriptor.connection c ≡ false)
      → text_eq q.descriptor.connection c ≡ false
      → connection_points env c d (insert name q points) ≡ connection_points env c d points
  unfolding connection_points insert
  connection_points-insert c d name q points once h k =
      ap (λ o. append_point o (connection_points env c d (remove name points)))
        (poll_point-other c d name q k)
      ∙ connection_points-remove c d name points once h

  pub worker_for-points :
      (c : Text) (o : Option ConnectionDefinition) (ps qs : Dict PointDefinition)
      → ((d : ConnectionDefinition) → connection_points env c d ps ≡ connection_points env c d qs)
      → worker_for env c ps o ≡ worker_for env c qs o
  unfolding worker_for
  worker_for-points c none ps qs h = refl
  worker_for-points c (some d) ps qs h = rw (h d) refl
