-- ===== src/Retain/Store.antt =====
-- retain/store.go: last values in memory, written behind to a table of SQLite.
-- The table is a map; what a statement returns is an argument of the flush.
pub mod Flushing
pub mod Restart
use go_scada.Base.{
  Text, Bool, true, false, not, List, [], ◌∷◌, Option, none, some, is_empty, if◌then◌else◌, Dict,
  lookup, insert, keys,
}

abbrev pub Payload : Type 0
Payload = Text

-- The store and its table `last_value`. `batch` is the map that flushDirty has taken and not yet
-- committed or queued again, and `closed` says that the flush loop has returned.
pub record Store : Type 0 where
  pub table : Dict Payload
  pub values : Dict Payload
  pub dirty : Dict Payload
  pub batch : Dict Payload
  pub closed : Bool

pub load_rows : Dict Payload → Dict Payload → Dict Payload
load_rows [] values = values
load_rows ((subject, payload) ∷ rows) values = load_rows rows (insert subject payload values)

-- The part of `Open` after the pragmas, with `load`.
unfoldable pub open_store : Dict Payload → Store
unfolding load_rows
open_store table = record {
  table = table;
  values = load_rows table [];
  dirty = [];
  batch = [];
  closed = false;
}

unfoldable pub put : Text → Payload → Store → Store
put subject payload s = if is_empty subject then s else record s {
  values = insert subject payload s.values;
  dirty = insert subject payload s.dirty;
}

unfoldable pub get : Text → Store → Option Payload
get subject s = lookup subject s.values

unfoldable pub subjects : Store → List Text
subjects s = keys s.values

-- flushDirty up to the unlock.
unfoldable pub take_dirty : Store → Store
take_dirty s = record s { dirty = []; batch = s.dirty }

requeue_one : Text → Payload → Option Payload → Dict Payload → Dict Payload
requeue_one subject payload (some _) dirty = dirty
requeue_one subject payload none dirty = insert subject payload dirty

pub requeue_all : Dict Payload → Dict Payload → Dict Payload
unfolding requeue_one
requeue_all [] dirty = dirty
requeue_all ((subject, payload) ∷ batch) dirty =
    requeue_all batch (requeue_one subject payload (lookup subject dirty) dirty)

unfoldable pub requeue : Store → Store
unfolding requeue_all
requeue s = record s { dirty = requeue_all s.batch s.dirty; batch = [] }

-- INSERT OR REPLACE for each entry of the batch.
pub write_rows : Dict Payload → Dict Payload → Dict Payload
write_rows [] table = table
write_rows ((subject, payload) ∷ batch) table = write_rows batch (insert subject payload table)

-- How the transaction ends.
pub data Outcome : Type 0 where
  -- Every call returns nil.
  committed : Outcome
  -- A call before Commit fails, and the transaction is rolled back.
  rolled_back : Outcome
  -- Commit fails, and the rows are not in the table.
  commit_failed : Outcome
  -- Commit reports an error although the rows are in the table.
  commit_unknown : Outcome

-- flushDirty from Begin on.
unfoldable pub finish_flush : Outcome → Store → Store
unfolding write_rows
finish_flush committed s = record s { table = write_rows s.batch s.table; batch = [] }
finish_flush rolled_back s = requeue s
finish_flush commit_failed s = requeue s
finish_flush commit_unknown s = requeue (record s { table = write_rows s.batch s.table })

flush_nonempty : Outcome → Dict Payload → Store → Store
flush_nonempty outcome [] s = s
flush_nonempty outcome (_ ∷ _) s = finish_flush outcome (take_dirty s)

-- flushDirty without a call between its two parts.
unfoldable pub flush_dirty : Outcome → Store → Store
unfolding flush_nonempty
flush_dirty outcome s = flush_nonempty outcome s.dirty s

-- Close: the flush loop flushes twice and returns.
unfoldable pub close : Outcome → Outcome → Store → Store
close first second s = record (flush_dirty second (flush_dirty first s)) { closed = true }
