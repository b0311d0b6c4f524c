-- ===== src/Lib.antt =====
-- Verification of go-scada, a set of Go services around a NATS stream of tags.
--
-- The program's parts. `modbus-service` (modbus/) reads configurations of connections (subjects
-- that end in .config) and of points (.address) from the stream, polls the devices and publishes
-- values; both kinds of configuration are JSON envelopes (address/). `alert-service` (alert/)
-- evaluates alert configurations (.alert_config) over values and over other alerts, and keeps the
-- lifecycle of each alert. `retain-service` (retain/) keeps the last value of each subject in
-- memory and in SQLite. The package stream/ is the client that they share, and designer/ serves
-- the user interface.
--
-- Files, and the code that they model.
--
-- Base: numbers, lists, texts as code points, Go maps as association lists, sort.Slice as a sort,
-- and errors: `Result` with do blocks is Go's pair of a value and an error.
--
-- Json, Float, Value: what a strict decoder returns, float64 by its bit pattern, and values of
-- type any.
--
-- Address: address/descriptor.go. `parse`, `marshal` and `validate` are Parse, Marshal and
-- Validate.
--
-- Modbus.Config: modbus/config.go, ParseConnection and ParsePoint.
--
-- Modbus.Group: modbus/group.go, groupPoints and mergeRegisterPoints on uint16 numbers.
--
-- Modbus.Reader: modbus/reader.go, readGroup and the decoding of registers.
--
-- Modbus.Service: modbus/service.go. The record `Service` has the fields of the Go struct that
-- carry state. `reconcile_connection`, `reconcile_address`, `restart_connection`, `remove_point`,
-- `start_workers`, `stop` and `client_for` are the methods of these names; a goroutine is the
-- record of the arguments that `poll` was started with. Running has sequences of these as events,
-- Publishing has `publish`, and Rounds has one tick of `poll`.
--
-- Alert.Model, Alert.Protocol and Alert.Validation: alert/model.go and alert/protocol.go.
--
-- Alert.Evaluator: alert/evaluator.go, EvaluateBinary, EvaluateInt64, EvaluateFloat64,
-- EvaluateValue, EvaluateSummary, ApplyEvaluation and Acknowledge.
--
-- Retain.Store: retain/store.go. flushDirty is two operations, before and after its unlock, so
-- that a run can interleave Put with them; how the transaction ends is an argument.
--
-- Retain.Server: retain/server.go and retain/protocol.go. A handler is a function of the message
-- and the store to what it responds.
--
-- Stream.Interest: stream/interest.go. `watch` and `unwatch` are ensure and Remove on the map of
-- watched subjects; `dispatch` and `run_worker` work on the channels, which are lists.
--
-- How a component's files are made: the definitions stand in the file named for it, its theorems
-- in child modules named for what they are about, and tests and concrete instances in a module
-- Examples.
--
-- Loops are structural recursion on lists; no definition needs fuel. Numbers of type uint16 wrap
-- around in the code of modbus/group.go and modbus/reader.go (`u16`, `sub16`), and int64 is
-- unbounded where the code only compares it. A map is ranged over in the order of its list; Go
-- leaves it open.
--
-- Parameters, since they are not in the repository: encoding/json (a decoder, an encoder and
-- json.Valid), strconv.ParseFloat, time.ParseDuration, url.Parse, the Modbus client (what a
-- device answers), the publisher's answers, and SQLite's.
--
-- Not modelled: the alert service, the rest of the stream package, the designer, the programs'
-- main functions, the simulator and the user interface. Of modbus/service.go, the subscriptions
-- of Run, timers, log lines and the closing of device clients are left out, a nil store is left
-- out of retain/store.go, and the reading of retained values is left out of stream/interest.go.
pub mod Base
pub mod Json
pub mod Float
pub mod Value
pub mod Address
pub mod Modbus
pub mod Alert
pub mod Retain
pub mod Stream
