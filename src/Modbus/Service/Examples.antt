-- ===== src/Modbus/Service/Examples.antt =====
-- Tests of the Modbus service, and its theorems at concrete inputs.
use mathlib.Core.List.{Perm}
use go_scada.Base.{
  Text, true, false, ◌≡◌, refl, pos, List, [], ◌∷◌, none, some, ok, err, codes, text_eq, lookup,
  insert, remove, All, map, trim_space, cut_suffix,
}
use go_scada.Json.{at_end}
use go_scada.Value.{Value}
use go_scada.Address
use go_scada.Address.{ValueType, Descriptor}
use go_scada.Modbus.Config.{
  Connection, unset, big, parse_connection, parse_point, register_count, value_type_for_encoding,
}
use go_scada.Modbus.Config.Points.{point_of}
use go_scada.Modbus.Config.Examples.{descriptor, float_at}
use go_scada.Modbus.Group.{group_points}
use go_scada.Modbus.Reader.Examples.{reader, memory, answers}
use go_scada.Modbus.Service.{
  Environment, Worker, Service, ConnectionDefinition, new_service, reconcile_connection, client_for,
  worker_for, define_connection, restart_if_started, restart_connection, stop_worker,
  read_connection, start_workers, reconcile_address, read_point, append_point, apply_connection,
  apply_point, belongs, connection_definition, connection_points, define_point, nonempty,
  point_definition, poll_point, restart_all, restart_both, restart_previous, same_connection,
  same_point, start_worker, target_subject,
}
use go_scada.Modbus.Service.Publishing.{
  Call, publish_calls, changes, calls_of, values_of, publish_calls-changes,
}
use go_scada.Modbus.Service.Running.{
  Event, connection_update, address_update, started, handle, handle_all,
}
use go_scada.Modbus.Service.Rounds.{Managed, Reading, IsRead, poll_round, poll_round-IsRead}

-- Every value describes a connection to the host that it names, and every point is a float at 100.
abbrev env : Environment
env = record {
  valid_json = λ t. true;
  decode_descriptor = λ t. some (descriptor, at_end);
  decode_connection = λ t. some (
    record {
      version = Address.current_version;
      driver = codes "modbus";
      enabled = true;
      config = t;
    },
    at_end,
  );
  decode_address_config = λ t. some (float_at 100, at_end);
  decode_connection_config = λ t. some (
    record {
      url = t;
      unit_id = 1;
      byte_order = unset;
      word_order = unset;
      timeout = codes "1s";
      poll_interval = codes "1s";
    },
    at_end,
  );
  parse_duration = λ t. some (pos 1000);
  parse_url = λ t. some (codes "tcp", t);
}

abbrev line : Text
line = codes "line1.config"

abbrev settings : Text → Connection
settings host = record {
  url = host;
  unit_id = 1;
  byte_order = big;
  word_order = big;
  timeout = pos 1000;
  poll_interval = pos 1000;
}

abbrev events : List Event
events =
    connection_update line (codes "old")
    ∷ address_update (codes "pump.speed.address") (codes "{}")
    ∷ started
    ∷ connection_update line (codes "new")
    ∷ []

abbrev worker : Worker
worker = record {
  connection = settings (codes "new");
  points =
      record {
        subject = codes "pump.speed";
        point = point_of descriptor (settings (codes "new")) (float_at 100);
        publish_on_change = false;
      }
      ∷ [];
}

running : lookup line (handle_all env events new_service).workers ≡ some worker
unfolding lookup handle_all handle reconcile_connection read_connection Address.parse_connection
    Address.validate_connection trim_space text_eq parse_connection Address.decode_config
    start_workers reconcile_address read_point Address.parse Address.validate cut_suffix insert
    remove parse_point register_count value_type_for_encoding append_point apply_connection
    apply_point belongs connection_definition connection_points define_connection define_point
    nonempty point_definition poll_point restart_all restart_both restart_connection
    restart_if_started restart_previous same_connection same_point start_worker stop_worker
    target_subject worker_for
running = refl

abbrev idle : Managed
idle = record { connection = settings (codes "new"); device = none }

poll_round-IsRead_example :
    (rs : List Reading) × ((poll_round (λ c. ok reader) (group_points worker.points) idle).0
      ≡ some rs)
    × Perm (map (λ r. r.0) rs) worker.points
    × All (IsRead reader) rs
poll_round-IsRead_example =
    poll_round-IsRead env events line worker (λ c. ok reader) reader memory idle running answers
      refl

abbrev definition : Text → ConnectionDefinition
definition host = record {
  raw = host;
  descriptor = record {
    version = Address.current_version;
    driver = codes "modbus";
    enabled = true;
    config = host;
  };
  connection = settings host;
}

abbrev old_service : Service
old_service = record new_service {
  started = true;
  connections = (line, definition (codes "old")) ∷ [];
}

-- A poll of the old worker between the two halves of an update leaves its client to the new one.
stale_client :
    (client_for line (settings (codes "new")) (
      restart_if_started env line
        (client_for line
          (settings (codes "old"))
          (define_connection env line (definition (codes "new")) old_service)).1)).0
    ≡ settings (codes "old")
unfolding client_for lookup restart_if_started define_connection remove restart_connection
    stop_worker insert text_eq
stale_client = refl

abbrev calls : List Call
calls =
    record {
      outcome = err (codes "closed");
      subject = codes "a";
      kind = ValueType.bool;
      value = Value.bool true;
    }
    ∷ record {
      outcome = ok tt;
      subject = codes "a";
      kind = ValueType.bool;
      value = Value.bool true;
    }
    ∷ record {
      outcome = ok tt;
      subject = codes "b";
      kind = ValueType.int64;
      value = Value.int64 (pos 3);
    }
    ∷ record {
      outcome = ok tt;
      subject = codes "a";
      kind = ValueType.bool;
      value = Value.bool true;
    }
    ∷ []

publish_calls-changes_example :
    values_of (codes "a") (publish_calls calls new_service)
    ≡ changes (lookup (codes "a") []) (calls_of (codes "a") calls)
publish_calls-changes_example = publish_calls-changes (codes "a") calls new_service
