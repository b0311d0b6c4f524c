-- ===== src/Modbus/Service/Rounds.antt =====
-- modbus/service.go: a round of `poll`, the managed client, and what a worker publishes.
use mathlib.Core.List.{Perm, map-append}
use go_scada.Base.{
  Text, Bool, true, false, ◌≡◌, List, [], ◌∷◌, ◌++◌, Option, none, some, Result, ok, err, Check,
  if◌then◌else◌, Dict, lookup, refl, sym, ◌∙◌, ap, arith, All, All-append, wrap, subst, map, ap₂,
}
use go_scada.Value.{Value}
use go_scada.Modbus.Config.{
  Connection, Point, ConfigError, parse_point, Encoding, value_type_for_encoding,
}
use go_scada.Modbus.Config.Points.{IsPollable, parse_point_iff}
use go_scada.Modbus.Group.{PollPoint, PollGroup, group_points, no_points}
use go_scada.Modbus.Group.Partition.{points_of}
use go_scada.Modbus.Group.Kept.{group_points-All}
use go_scada.Modbus.Group.Registers.{group_points-perm}
use go_scada.Modbus.Reader.{DeviceReader, ReadError, read_group, read_value}
use go_scada.Modbus.Reader.Memory.{DeviceMemory, Answers}
use go_scada.Modbus.Reader.Polling.{Polled, HasType, group_points-Polled}
use go_scada.Modbus.Service.{
  Environment, PointDefinition, ConnectionDefinition, Worker, connection_points, worker_for,
  poll_point, append_point, new_service,
}
use go_scada.Modbus.Service.Publishing.{publish_value, publisher_failed}
use go_scada.Modbus.Service.Running.{Event, handle_all, handle_all-InSync}

pub data RoundError : Type 0 where
  open_failed : Text → RoundError
  read_failed : ReadError → RoundError

-- A managedClient: its connection, and the device client while one is open.
pub record Managed : Type 0 where
  pub connection : Connection
  pub device : Option DeviceReader

-- From `readGroup(client.client, group)` on: a client that fails is closed.
after_read :
    Managed
    → DeviceReader
    → Result ReadError (List Value)
    → Result RoundError (List Value) × Managed
after_read m device (ok values) = (ok values, record m { device = some device })
after_read m device (err e) = (err (read_failed e), record m { device = none })

read_opened :
    PollGroup → Managed → Result Text DeviceReader → Result RoundError (List Value) × Managed
unfolding after_read
read_opened group m (ok device) = after_read m device (read_group device group)
read_opened group m (err e) = (err (open_failed e), m)

-- The device client of a managed client, opened if there is none.
abbrev pub opened_client :
    (Connection → Result Text DeviceReader)
    → Managed
    → Option DeviceReader
    → Result Text DeviceReader
opened_client open_client m (some device) = ok device
opened_client open_client m none = open_client m.connection

unfoldable pub read_managed :
    (Connection → Result Text DeviceReader)
    → PollGroup
    → Managed
    → Result RoundError (List Value) × Managed
unfolding read_opened
read_managed open_client group m = read_opened group m (opened_client open_client m m.device)

-- A value on its way to `publish`, with its point.
abbrev pub Reading : Type 0
Reading = PollPoint × Value

-- The loop over the points of a group; `none` is an index out of range.
abbrev pub pair_up : List PollPoint → List Value → Option (List Reading)
pair_up [] values = some []
pair_up (p ∷ ps) [] = none
pair_up (p ∷ ps) (v ∷ vs) = elim (pair_up ps vs) [ none ↦ none | some rest ↦ some ((p, v) ∷ rest) ]

abbrev join : Option (List Reading) → Option (List Reading) → Option (List Reading)
join none rest = none
join (some first) none = none
join (some first) (some rest) = some (first ++ rest)

group_readings : PollGroup → Result RoundError (List Value) → Option (List Reading)
group_readings group (ok values) = pair_up group.points values
group_readings group (err e) = some []

-- The loop over the groups of `poll`, for one tick of the timer.
unfoldable pub poll_round :
    (Connection → Result Text DeviceReader)
    → List PollGroup
    → Managed
    → Option (List Reading) × Managed
unfolding group_readings
poll_round open_client [] m = (some [], m)
poll_round open_client (group ∷ groups) m =
    let (values, m1) = read_managed open_client group m in
    let (rest, m2) = poll_round open_client groups m1 in
    (join (group_readings group values) rest, m2)

-- The reading is what reading the point alone gives, and publishValue passes it to the publisher.
abbrev pub IsRead : DeviceReader → Reading → Type 0
IsRead device (p, v) =
    (read_value device p.point ≡ ok v)
    × ((outcome : Check Text)
        → publish_value outcome p.point.value_type v ≡ wrap publisher_failed outcome)

HasType-published :
    (e : Encoding) (v : Value) (outcome : Check Text)
    → HasType (value_type_for_encoding e) v
    → publish_value outcome (value_type_for_encoding e) v ≡ wrap publisher_failed outcome
unfolding publish_value value_type_for_encoding
HasType-published e (Value.bool b) outcome h = ground arith
HasType-published e (Value.int64 n) outcome h = ground arith
HasType-published e (Value.float64 n) outcome h = ground arith
HasType-published e (Value.string n) outcome h = ground arith

point-published :
    (p : Point) (v : Value) (outcome : Check Text)
    → IsPollable p
    → HasType p.value_type v
    → publish_value outcome p.value_type v ≡ wrap publisher_failed outcome
point-published p v outcome h typed =
    subst (λ t. publish_value outcome t v ≡ wrap publisher_failed outcome) (sym h.typed)
      (HasType-published p.encoding v outcome (subst (λ t. HasType t v) h.typed typed))

module _ (open_client : Connection → Result Text DeviceReader) (device : DeviceReader) where
  group-IsRead :
      (ps : List PollPoint) (vs : List Value)
      → All (λ p. IsPollable p.point) ps
      → Polled device ps vs
      → (rs : List Reading) × (pair_up ps vs ≡ some rs)
        × (map (λ r. r.0) rs ≡ ps)
        × All (IsRead device) rs
  group-IsRead [] [] h k = ([], refl, refl, tt)
  group-IsRead [] (v ∷ vs) h k = absurd k
  group-IsRead (p ∷ ps) [] h k = absurd k
  group-IsRead (p ∷ ps) (v ∷ vs) (h, hs) (read, typed, ks) =
      let (rs, pairs, same, all) = group-IsRead ps vs hs ks in
      (
        (p, v) ∷ rs,
        rw pairs refl,
        ap (λ l. p ∷ l) same,
        ((read, λ o. point-published p.point v o h typed), all),
      )

  -- A client whose device, open or still to be opened, is the given one.
  abbrev Reaches : Managed → Type 0
  Reaches m = opened_client open_client m m.device ≡ ok device

  read_managed-read :
      (group : PollGroup) (m : Managed) (values : List Value)
      → Reaches m
      → read_group device group ≡ ok values
      → read_managed open_client group m ≡ (ok values, record m { device = some device })
  unfolding read_managed read_opened after_read
  read_managed-read group m values h k = rw (h, k) refl

  round-IsRead :
      (groups : List PollGroup) (m : Managed)
      → Reaches m
      → All (λ g. All (λ p. IsPollable p.point) g.points) groups
      → All
          (λ g. (vs : List Value) × (read_group device g ≡ ok vs) × Polled device g.points vs)
          groups
      → (rs : List Reading) × ((poll_round open_client groups m).0 ≡ some rs)
        × (map (λ r. r.0) rs ≡ points_of groups)
        × All (IsRead device) rs
  unfolding poll_round points_of group_readings
  round-IsRead [] m h ps k = ([], refl, refl, tt)
  round-IsRead (g ∷ gs) m h (p, ps) ((vs, read, polled), k) =
      let (first, pairs, same, all) = group-IsRead g.points vs p polled in
      let (rest, later, others, alls) =
        round-IsRead gs (record m { device = some device }) refl ps k in
      (
        first ++ rest,
        rw (read_managed-read g m vs h read, pairs, later) refl,
        map-append (λ r. r.0) first rest ∙ ap₂ (λ x y. x ++ y) same others,
        All-append (IsRead device) first rest all alls,
      )

-- The points of a worker are ones that ParsePoint has accepted.
poll_point-IsPollable :
    (env : Environment) (definition : PointDefinition) (c : ConnectionDefinition) (b : Bool)
    (r : Result ConfigError Point) (o : Option Text) (rest : List PollPoint)
    → r ≡ parse_point env.decode_address_config definition.descriptor c.connection
    → All (λ p. IsPollable p.point) rest
    → All (λ p. IsPollable p.point) (append_point (poll_point definition b r o) rest)
unfolding poll_point append_point
poll_point-IsPollable env definition c true (ok p) (some t) rest e h =
    let (driver, config, decoded, same, pollable) =
      (parse_point_iff env.decode_address_config definition.descriptor c.connection p).0 (sym e) in
    (pollable, h)
poll_point-IsPollable env definition c true (ok p) none rest e h = h
poll_point-IsPollable env definition c true (err x) o rest e h = h
poll_point-IsPollable env definition c false r o rest e h = h

connection_points-IsPollable :
    (env : Environment) (subject : Text) (c : ConnectionDefinition) (points : Dict PointDefinition)
    → All (λ p. IsPollable p.point) (connection_points env subject c points)
unfolding connection_points
connection_points-IsPollable env subject c [] = tt
connection_points-IsPollable env subject c ((name, definition) ∷ rest) =
    poll_point-IsPollable env definition c _ _ _ _ refl
      (connection_points-IsPollable env subject c rest)

worker_for-IsPollable :
    (env : Environment) (subject : Text) (points : Dict PointDefinition)
    (o : Option ConnectionDefinition) (w : Worker)
    → worker_for env subject points o ≡ some w
    → All (λ p. IsPollable p.point) w.points
unfolding worker_for
worker_for-IsPollable env subject points none w h = cc
worker_for-IsPollable env subject points (some c) w h =
    subst (All (λ p. IsPollable p.point))
      (polled (no_points (connection_points env subject c points)) h)
      (connection_points-IsPollable env subject c points)
  where
    polled :
        (b : Bool)
        → (if b
            then none
            else some (record {
              connection = c.connection;
              points = connection_points env subject c points;
            }))
          ≡ some w
        → connection_points env subject c points ≡ w.points
    polled true k = cc
    polled false k = cc

-- Take a worker at any moment of a run, and a device that answers from a memory, either open or opened
-- by the factory. One round of its poll loop fails nowhere and stays within the values read: it passes
-- on one reading for each point of the worker, in some order, which is the value that reading the point
-- alone gives, and publishValue hands it to the publisher.
pub poll_round-IsRead :
    (env : Environment) (events : List Event) (subject : Text) (w : Worker)
    (open_client : Connection → Result Text DeviceReader) (device : DeviceReader)
    (memory : DeviceMemory) (m : Managed)
    → lookup subject (handle_all env events new_service).workers ≡ some w
    → Answers device memory
    → opened_client open_client m m.device ≡ ok device
    → (rs : List Reading) × ((poll_round open_client (group_points w.points) m).0 ≡ some rs)
      × Perm (map (λ r. r.0) rs) w.points
      × All (IsRead device) rs
poll_round-IsRead env events subject w open_client device memory m at answers reaches =
    let s = handle_all env events new_service in
    let pollable =
      expected-IsPollable s.started (sym ((handle_all-InSync env events).workers subject) ∙ at) in
    let (rs, found, points, all) =
      round-IsRead open_client device (group_points w.points) m reaches
        (group_points-All (λ p. IsPollable p.point) w.points pollable)
        (group_points-Polled device memory answers w.points pollable) in
    (rs, found, subst (λ l. Perm l w.points) (sym points) (group_points-perm w.points), all)
  where
    expected-IsPollable :
        (b : Bool)
        → (if b
            then worker_for env subject
                (handle_all env events new_service).points
                (lookup subject (handle_all env events new_service).connections)
            else none)
          ≡ some w
        → All (λ p. IsPollable p.point) w.points
    expected-IsPollable true h = worker_for-IsPollable env subject _ _ w h
    expected-IsPollable false h = absurd cc
