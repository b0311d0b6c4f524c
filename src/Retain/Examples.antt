-- ===== src/Retain/Examples.antt =====
-- Tests of the retained values, and their theorems at concrete inputs.
use go_scada.Base.{
  Text, ◌≡◌, [], ◌∷◌, some, Dict, lookup, insert, remove, refl, codes, text_eq, inr, lookup-empty,
  Once,
}
use go_scada.Retain.Store.{
  Payload, Store, open_store, put, get, take_dirty, requeue, finish_flush, flush_dirty, close,
  rolled_back, committed,
}
use go_scada.Retain.Store.Flushing.{
  Run, opened, putting, taking, finishing, Run-IsConsistent, IsConsistent,
}
use go_scada.Retain.Store.Flushing.Maps.{or_else}
use go_scada.Retain.Store.Restart.{get_latest, close-durable, crash-durable}

abbrev pump : Text
pump = codes "pump"

abbrev valve : Text
valve = codes "valve"

abbrev table : Dict Payload
table = (pump, codes "1") ∷ []

table-Once : Once table
table-Once = (lookup-empty pump, tt)

abbrev log : Dict Payload
log = (valve, codes "3") ∷ (valve, codes "2") ∷ []

-- A write of `valve` is overtaken by another while its transaction fails.
abbrev store : Store
store =
    finish_flush rolled_back
      (put valve (codes "3") (take_dirty (put valve (codes "2") (open_store table))))

store-Run : Run table log store
unfolding put open_store insert
store-Run = finishing log _ rolled_back (
    putting _ _ valve (codes "3") refl
      (taking _ _ refl (putting [] _ valve (codes "2") refl opened)))

requeue_keeps_newer : get valve store ≡ some (codes "3")
unfolding get put take_dirty finish_flush requeue open_store lookup insert remove text_eq
requeue_keeps_newer = refl

written_on_close : (close rolled_back committed store).table ≡ (valve, codes "3") ∷ table
unfolding close flush_dirty put take_dirty finish_flush requeue open_store lookup insert remove
    text_eq
written_on_close = refl

Run-IsConsistent_example : IsConsistent store
Run-IsConsistent_example = Run-IsConsistent table log store table-Once store-Run

get_latest_example : get pump store ≡ or_else (lookup pump log) (lookup pump table)
get_latest_example = get_latest table log store pump table-Once store-Run

close-durable_example :
    get valve (open_store (close rolled_back committed store).table) ≡ get valve store
unfolding finish_flush requeue
close-durable_example =
    close-durable table log store rolled_back committed valve table-Once store-Run refl (inr refl)

crash-durable_example : get pump (open_store store.table) ≡ get pump store
unfolding lookup finish_flush requeue put take_dirty insert remove open_store text_eq
crash-durable_example = crash-durable table log store pump table-Once store-Run refl refl
