-- ===== src/Retain/Store/Flushing.antt =====
-- The interleavings of Put with the flush loop of retain/store.go, and what a restart finds.
pub mod Maps
use go_scada.Base.{
  Text, Bool, true, false, not, ◌≡◌, ◌||◌, List, [], ◌∷◌, ◌++◌, Option, none, some, is_empty,
  if◌then◌else◌, Dict, lookup, lookup-insert, lookup-empty, insert, arith, refl, sym, ◌∙◌, ap,
  subst, text_eq, ◌⊎◌, inl, inr, Bool-cases, ap₂, Once, Once-insert,
}
use go_scada.Retain.Store.{
  Payload, Store, open_store, put, get, take_dirty, requeue, finish_flush, flush_dirty, close,
  Outcome, committed, rolled_back, commit_failed, commit_unknown, load_rows, requeue_all,
  write_rows, flush_nonempty,
}
use go_scada.Retain.Store.Flushing.Maps.{
  or_else, lookup-load_rows, lookup-requeue_all, Once-requeue_all, lookup-write_rows,
  Once-write_rows, or_else-none,
}

-- The values in memory are the table, overlaid with the batch in flight and then with the dirty ones.
-- Each map has an entry for a subject once.
pub record IsConsistent (s : Store) : Type 0 where
  pub latest :
      (k : Text)
      → lookup k s.values
        ≡ or_else (lookup k s.dirty) (or_else (lookup k s.batch) (lookup k s.table))
  pub once_table : Once s.table
  pub once_batch : Once s.batch
  pub once_dirty : Once s.dirty

-- What happens to an open store, with the Put calls logged, the latest first.
pub data Run (table : Dict Payload) : Dict Payload → Store → Type 0 where
  opened : Run table [] (open_store table)
  putting :
      (log : Dict Payload) (s : Store) (subject : Text) (payload : Payload)
      → is_empty subject ≡ false
      → Run table log s
      → Run table ((subject, payload) ∷ log) (put subject payload s)
  taking :
      (log : Dict Payload) (s : Store)
      → s.batch ≡ []
      → Run table log s
      → Run table log (take_dirty s)
  finishing :
      (log : Dict Payload) (s : Store) (outcome : Outcome)
      → Run table log s
      → Run table log (finish_flush outcome s)

pub or_else_empty : (k : Text) (o : Option Payload) → or_else (lookup k []) o ≡ o
or_else_empty k o = rw lookup-empty refl

after_load :
    (k : Text) (table : Dict Payload)
    → Once table
    → or_else (lookup k []) (or_else (lookup k []) (lookup k table)) ≡ lookup k (load_rows table [])
after_load k table once =
    or_else_empty k _
    ∙ or_else_empty k _
    ∙ sym (or_else-none (lookup k table))
    ∙ ap (or_else (lookup k table)) (sym (lookup-empty k))
    ∙ sym (lookup-load_rows k table [] once)

pub open_store-IsConsistent : (table : Dict Payload) → Once table → IsConsistent (open_store table)
unfolding open_store
open_store-IsConsistent table once = record {
  latest = λ k. sym (after_load k table once);
  once_table = once;
  once_batch = tt;
  once_dirty = tt;
}

after_put :
    (k subject : Text) (payload : Payload) (s : Store)
    → IsConsistent s
    → lookup k (insert subject payload s.values)
      ≡ or_else
          (lookup k (insert subject payload s.dirty))
          (or_else (lookup k s.batch) (lookup k s.table))
after_put k subject payload s c = elim (Bool-cases (text_eq subject k)) [
  | inl e ↦
      rw (lookup-insert subject k payload s.values, lookup-insert subject k payload s.dirty, e) refl
  | inr e ↦
      rw (lookup-insert subject k payload s.values, lookup-insert subject k payload s.dirty, e)
        (c.latest k)
]

put-IsConsistent :
    (subject : Text) (payload : Payload) (s : Store)
    → IsConsistent s
    → IsConsistent (put subject payload s)
unfolding put
put-IsConsistent subject payload s c = elim (Bool-cases (is_empty subject)) [
  | inl e ↦ rw e c
  | inr e ↦ rw e (record {
    latest = λ k. after_put k subject payload s c;
    once_table = c.once_table;
    once_batch = c.once_batch;
    once_dirty = Once-insert subject payload s.dirty c.once_dirty;
  })
]

pub take_dirty-IsConsistent :
    (s : Store) → s.batch ≡ [] → IsConsistent s → IsConsistent (take_dirty s)
unfolding take_dirty
take_dirty-IsConsistent s e c = record {
  latest = λ k.
      c.latest k
      ∙ rw e (ap (or_else (lookup k s.dirty)) (or_else_empty k _) ∙ sym (or_else_empty k _));
  once_table = c.once_table;
  once_batch = c.once_dirty;
  once_dirty = tt;
}

or_else_same : {A : Type 0} (a : Option A) → or_else a a ≡ a
or_else_same none = refl
or_else_same (some x) = refl

or_else_assoc : {A : Type 0} (a b c : Option A) → or_else a (or_else b c) ≡ or_else (or_else a b) c
or_else_assoc none b c = refl
or_else_assoc (some x) b c = refl

after_requeue :
    (k : Text) (s : Store)
    → or_else (lookup k s.dirty) (or_else (lookup k s.batch) (lookup k s.table))
      ≡ or_else (lookup k (requeue_all s.batch s.dirty)) (or_else (lookup k []) (lookup k s.table))
after_requeue k s =
    or_else_assoc (lookup k s.dirty) (lookup k s.batch) (lookup k s.table)
    ∙ ap₂ or_else (sym (lookup-requeue_all k s.batch s.dirty)) (sym (or_else_empty k _))

requeue-IsConsistent : (s : Store) → IsConsistent s → IsConsistent (requeue s)
unfolding requeue
requeue-IsConsistent s c = record {
  latest = λ k. c.latest k ∙ after_requeue k s;
  once_table = c.once_table;
  once_batch = tt;
  once_dirty = Once-requeue_all s.batch s.dirty c.once_dirty;
}

after_write :
    (k : Text) (s : Store)
    → IsConsistent s
    → or_else (lookup k s.batch) (lookup k s.table)
      ≡ or_else (lookup k s.batch) (lookup k (write_rows s.batch s.table))
after_write k s c =
    ap (λ o. or_else o (lookup k s.table)) (sym (or_else_same (lookup k s.batch)))
    ∙ sym (or_else_assoc (lookup k s.batch) (lookup k s.batch) (lookup k s.table))
    ∙ ap (or_else (lookup k s.batch)) (sym (lookup-write_rows k s.batch s.table c.once_batch))

write-IsConsistent :
    (s : Store) → IsConsistent s → IsConsistent (record s { table = write_rows s.batch s.table })
write-IsConsistent s c = record {
  latest = λ k. c.latest k ∙ ap (or_else (lookup k s.dirty)) (after_write k s c);
  once_table = Once-write_rows s.batch s.table c.once_table;
  once_batch = c.once_batch;
  once_dirty = c.once_dirty;
}

pub finish_flush-IsConsistent :
    (outcome : Outcome) (s : Store) → IsConsistent s → IsConsistent (finish_flush outcome s)
unfolding finish_flush
finish_flush-IsConsistent committed s c = record {
  latest = λ k.
      c.latest k
      ∙ ap (or_else (lookup k s.dirty))
          (sym (lookup-write_rows k s.batch s.table c.once_batch) ∙ sym (or_else_empty k _));
  once_table = Once-write_rows s.batch s.table c.once_table;
  once_batch = tt;
  once_dirty = c.once_dirty;
}
finish_flush-IsConsistent rolled_back s c = requeue-IsConsistent s c
finish_flush-IsConsistent commit_failed s c = requeue-IsConsistent s c
finish_flush-IsConsistent commit_unknown s c = requeue-IsConsistent _ (write-IsConsistent s c)

-- However the flushes interleave with the Put calls, and however their transactions end, the values in
-- memory are the table overlaid with what is in flight or dirty, and each map has a subject once.
pub Run-IsConsistent :
    (table log : Dict Payload) (s : Store) → Once table → Run table log s → IsConsistent s
Run-IsConsistent table log s once opened = open_store-IsConsistent table once
Run-IsConsistent table _ _ once (putting log s subject payload h r) =
    put-IsConsistent subject payload s (Run-IsConsistent table log s once r)
Run-IsConsistent table _ _ once (taking log s h r) =
    take_dirty-IsConsistent s h (Run-IsConsistent table log s once r)
Run-IsConsistent table _ _ once (finishing log s outcome r) =
    finish_flush-IsConsistent outcome s (Run-IsConsistent table log s once r)
