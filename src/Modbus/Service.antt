-- ===== src/Modbus/Service.antt =====
-- modbus/service.go: the definitions, workers and clients that the service keeps.
pub mod Publishing
pub mod Workers
pub mod Reconciling
pub mod Readdressing
pub mod Running
pub mod Rounds
mod Examples
use go_scada.Base.{
  ℕ, ltb, Text, Bool, true, false, not, ◌&&◌, ◌||◌, ℤ, List, [], ◌∷◌, Option, none, some, Result,
  ok, err, codes, is_empty, text_eq, if◌then◌else◌, Dict, lookup, insert, remove, cut_suffix, keys,
}
use go_scada.Json.{Decoder}
use go_scada.Value.{Value}
use go_scada.Address
use go_scada.Address.{Descriptor, AddressError}
use go_scada.Modbus.Config.{
  AddressConfig, ConnectionConfig, ConfigError, Connection, Point, parse_point, parse_connection,
}
use go_scada.Modbus.Group.{PollPoint, no_points}

abbrev pub address_suffix : Text
address_suffix = codes ".address"

-- What the service calls and is not in the repository: the decoders of encoding/json, json.Valid,
-- time.ParseDuration and url.Parse.
pub record Environment : Type 0 where
  pub valid_json : Text → Bool
  pub decode_descriptor : Decoder Descriptor
  pub decode_connection : Decoder Address.Connection
  pub decode_address_config : Decoder AddressConfig
  pub decode_connection_config : Decoder ConnectionConfig
  pub parse_duration : Text → Option ℤ
  pub parse_url : Text → Option (Text × Text)

pub record PointDefinition : Type 0 where
  pub raw : Text
  pub descriptor : Descriptor

pub record ConnectionDefinition : Type 0 where
  pub raw : Text
  pub descriptor : Address.Connection
  pub connection : Connection

-- The goroutine that `restartConnection` starts, by the arguments of `poll`.
pub record Worker : Type 0 where
  pub connection : Connection
  pub points : List PollPoint

-- A managedClient by the connection that it opens.
pub record Service : Type 0 where
  pub started : Bool
  pub points : Dict PointDefinition
  pub connections : Dict ConnectionDefinition
  pub workers : Dict Worker
  pub clients : Dict Connection
  pub last_published : Dict Value

-- newService
abbrev pub new_service : Service
new_service = record {
  started = false;
  points = [];
  connections = [];
  workers = [];
  clients = [];
  last_published = [];
}

-- A base that is not empty: the length exceeds that of the suffix.
nonempty : Option Text → Option Text
nonempty none = none
nonempty (some base) = if is_empty base then none else some base

unfoldable pub target_subject : Text → Option Text
unfolding nonempty
target_subject subject = nonempty (cut_suffix subject address_suffix)

-- One round of the loop of connectionPointsLocked, once the point and the target are computed.
poll_point : PointDefinition → Bool → Result ConfigError Point → Option Text → Option PollPoint
poll_point definition true (ok point) (some target) = some (record {
  subject = target;
  point = point;
  publish_on_change = definition.descriptor.publish_on_change;
})
poll_point definition _ _ _ = none

append_point : Option PollPoint → List PollPoint → List PollPoint
append_point none rest = rest
append_point (some p) rest = p ∷ rest

-- `descriptor.Driver != "modbus" || !descriptor.Enabled`
abbrev active_driver : Text → Bool → Bool
active_driver driver enabled = text_eq driver (codes "modbus") && enabled

module _ (env : Environment) where
  -- The connection and the driver of a point's definition are those of the connection.
  belongs : Text → ConnectionDefinition → PointDefinition → Bool
  belongs subject c definition =
      text_eq definition.descriptor.connection subject
      && text_eq definition.descriptor.driver c.descriptor.driver

  unfoldable pub connection_points :
      Text → ConnectionDefinition → Dict PointDefinition → List PollPoint
  unfolding belongs poll_point append_point
  connection_points subject c [] = []
  connection_points subject c ((name, definition) ∷ rest) =
      append_point
        (poll_point definition (belongs subject c definition)
          (parse_point env.decode_address_config definition.descriptor c.connection)
          (target_subject name))
        (connection_points subject c rest)

  -- From `!connectionExists || len(points) == 0` on: the worker to start, if any.
  pub worker_for : Text → Dict PointDefinition → Option ConnectionDefinition → Option Worker
  worker_for subject points none = none
  worker_for subject points (some c) =
      let polled = connection_points subject c points in
      if no_points polled
      then none
      else some (record { connection = c.connection; points = polled })

  start_worker : Text → Option Worker → Dict Worker → Dict Worker
  start_worker subject none workers = workers
  start_worker subject (some w) workers = insert subject w workers

  unfoldable pub stop_worker : Text → Service → Service
  stop_worker subject s = record s { workers = remove subject s.workers }

  unfoldable pub restart_connection : Text → Service → Service
  unfolding worker_for start_worker
  restart_connection subject s =
      let stopped = stop_worker subject s in
      record stopped {
        workers =
            start_worker subject (worker_for subject s.points (lookup subject s.connections))
              stopped.workers;
      }

  unfoldable pub invalidate_connection : Text → Service → Service
  invalidate_connection subject s =
      stop_worker subject (record s {
        connections = remove subject s.connections;
        clients = remove subject s.clients;
      })

  -- The definition of a value, if it describes an active Modbus connection.
  connection_definition :
      Text → Result AddressError Address.Connection → Option ConnectionDefinition
  connection_definition value (err e) = none
  connection_definition value (ok d) =
      if active_driver d.driver d.enabled
      then connection_of
          (parse_connection env.parse_duration env.parse_url env.decode_connection_config d)
      else none
    where
      connection_of : Result ConfigError Connection → Option ConnectionDefinition
      connection_of (err e) = none
      connection_of (ok c) = some (record { raw = value; descriptor = d; connection = c })

  unfoldable pub read_connection : Text → Option ConnectionDefinition
  unfolding connection_definition
  read_connection value =
      connection_definition value
        (Address.parse_connection env.valid_json env.decode_connection value)

  -- `exists && existing.raw == value`
  same_connection : Text → Option ConnectionDefinition → Bool
  same_connection value none = false
  same_connection value (some existing) = text_eq existing.raw value

  -- reconcileConnection up to the unlock, for a valid definition that is new.
  pub define_connection : Text → ConnectionDefinition → Service → Service
  define_connection subject c s = record s {
    connections = insert subject c s.connections;
    clients = remove subject s.clients;
  }

  pub restart_if_started : Text → Service → Service
  restart_if_started subject s = if s.started then restart_connection subject s else s

  apply_connection : Text → Text → Option ConnectionDefinition → Service → Service
  apply_connection subject value none s = invalidate_connection subject s
  apply_connection subject value (some c) s =
      if same_connection value (lookup subject s.connections)
      then s
      else restart_if_started subject (define_connection subject c s)

  unfoldable pub reconcile_connection : Text → Text → Service → Service
  unfolding apply_connection same_connection define_connection restart_if_started
  reconcile_connection subject value s = apply_connection subject value (read_connection value) s

  pub forget_target : Option Text → Service → Service
  forget_target none s = s
  forget_target (some target) s = record s { last_published = remove target s.last_published }

  pub restart_of : Option PointDefinition → Service → Service
  restart_of none s = s
  restart_of (some definition) s = restart_if_started definition.descriptor.connection s

  unfoldable pub remove_point : Text → Service → Service
  unfolding forget_target restart_of restart_if_started
  remove_point subject s =
      restart_of (lookup subject s.points)
        (forget_target (target_subject subject) (record s { points = remove subject s.points }))

  point_definition : Text → Result AddressError Descriptor → Option PointDefinition
  point_definition value (err e) = none
  point_definition value (ok d) =
      if active_driver d.driver d.enabled
      then some (record { raw = value; descriptor = d })
      else none

  unfoldable pub read_point : Text → Option PointDefinition
  unfolding point_definition
  read_point value =
      point_definition value (Address.parse env.valid_json env.decode_descriptor value)

  pub same_point : Text → Option PointDefinition → Bool
  same_point value none = false
  same_point value (some existing) = text_eq existing.raw value

  -- The connection of the previous definition, if it is another one.
  pub restart_previous : Option PointDefinition → Text → Service → Service
  restart_previous none connection s = s
  restart_previous (some existing) connection s =
      let previous = existing.descriptor.connection in
      if not (is_empty previous) && not (text_eq previous connection)
      then restart_connection previous s
      else s

  pub define_point : Text → PointDefinition → Service → Service
  define_point subject p s = record s { points = insert subject p s.points }

  pub restart_both : Option PointDefinition → Text → Service → Service
  restart_both existing connection s =
      if s.started
      then restart_connection connection (restart_previous existing connection s)
      else s

  pub apply_point : Text → Text → Option PointDefinition → Service → Service
  apply_point subject value none s = remove_point subject s
  apply_point subject value (some p) s =
      if same_point value (lookup subject s.points)
      then s
      else restart_both (lookup subject s.points) p.descriptor.connection (define_point subject p s)

  unfoldable pub reconcile_address : Text → Text → Service → Service
  unfolding apply_point same_point define_point restart_both restart_previous
  reconcile_address subject value s = apply_point subject value (read_point value) s

  restart_all : List Text → Service → Service
  restart_all [] s = s
  restart_all (subject ∷ subjects) s = restart_all subjects (restart_connection subject s)

  unfoldable pub start_workers : Service → Service
  unfolding restart_all
  start_workers s = restart_all (keys s.connections) (record s { started = true })

  -- load, for the values that Get returns; a value that it does not return is skipped.
  unfoldable pub load :
      (Text → Text → Service → Service) → List (Text × Option Text) → Service → Service
  load reconcile [] s = s
  load reconcile ((subject, none) ∷ rest) s = load reconcile rest s
  load reconcile ((subject, some value) ∷ rest) s = load reconcile rest (reconcile subject value s)

-- The managed client of a subject, or a new one for the connection.
pub client_of : Text → Connection → Option Connection → Service → Connection × Service
client_of subject connection (some client) s = (client, s)
client_of subject connection none s =
    (connection, record s { clients = insert subject connection s.clients })

-- clientFor, called by the worker of a subject.
unfoldable pub client_for : Text → Connection → Service → Connection × Service
unfolding client_of
client_for subject connection s = client_of subject connection (lookup subject s.clients) s

unfoldable pub stop : Service → Service
stop s = record s { started = false; workers = []; clients = [] }
