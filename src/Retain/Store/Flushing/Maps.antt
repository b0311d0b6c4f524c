-- ===== src/Retain/Store/Flushing/Maps.antt =====
-- The loops over maps of retain/store.go, by what a lookup finds afterwards.
use go_scada.Base.{
  Text, ◌≡◌, [], ◌∷◌, Option, none, some, Dict, lookup, lookup-insert, lookup-empty, insert, refl,
  sym, ◌∙◌, text_eq, text_eq_iff, Bool-cases, inl, inr, subst, Once, Once-insert,
}
use go_scada.Retain.Store.{Payload, load_rows, requeue_all, requeue_one, write_rows}

abbrev pub or_else : {A : Type 0} → Option A → Option A → Option A
or_else none b = b
or_else (some a) b = some a

-- Writing the first of the entries, and then the others.
or_else-insert :
    (k j : Text) (v : Payload) (rows values : Dict Payload)
    → lookup j rows ≡ none
    → or_else (lookup k rows) (lookup k (insert j v values))
      ≡ or_else (lookup k ((j, v) ∷ rows)) (lookup k values)
unfolding lookup
or_else-insert k j v rows values h = elim (Bool-cases (text_eq j k)) [
  | inl e ↦
      let same : lookup k rows ≡ none =
        subst (λ i. lookup i rows ≡ none) ((text_eq_iff j k).0 e) h in
      rw (lookup-insert, same, e) refl
  | inr e ↦ rw (lookup-insert, e) refl
]

pub lookup-load_rows :
    (k : Text) (rows values : Dict Payload)
    → Once rows
    → lookup k (load_rows rows values) ≡ or_else (lookup k rows) (lookup k values)
unfolding load_rows lookup
lookup-load_rows k [] values h = refl
lookup-load_rows k ((j, v) ∷ rows) values (h, hs) =
    lookup-load_rows k rows (insert j v values) hs ∙ or_else-insert k j v rows values h

pub lookup-write_rows :
    (k : Text) (batch table : Dict Payload)
    → Once batch
    → lookup k (write_rows batch table) ≡ or_else (lookup k batch) (lookup k table)
unfolding write_rows lookup
lookup-write_rows k [] table h = refl
lookup-write_rows k ((j, v) ∷ batch) table (h, hs) =
    lookup-write_rows k batch (insert j v table) hs ∙ or_else-insert k j v batch table h

pub Once-write_rows : (batch table : Dict Payload) → Once table → Once (write_rows batch table)
unfolding write_rows
Once-write_rows [] table h = h
Once-write_rows ((j, v) ∷ batch) table h =
    Once-write_rows batch (insert j v table) (Once-insert j v table h)

requeue_one-lookup :
    (k j : Text) (v : Payload) (o : Option Payload) (batch dirty : Dict Payload)
    → lookup j dirty ≡ o
    → or_else (lookup k (requeue_one j v o dirty)) (lookup k batch)
      ≡ or_else (lookup k dirty) (lookup k ((j, v) ∷ batch))
unfolding requeue_one lookup
requeue_one-lookup k j v (some w) batch dirty h = elim (Bool-cases (text_eq j k)) [
  | inl e ↦
      let same : lookup k dirty ≡ some w =
        subst (λ i. lookup i dirty ≡ some w) ((text_eq_iff j k).0 e) h in
      rw (same) refl
  | inr e ↦ rw e refl
]
requeue_one-lookup k j v none batch dirty h = elim (Bool-cases (text_eq j k)) [
  | inl e ↦
      let same : lookup k dirty ≡ none =
        subst (λ i. lookup i dirty ≡ none) ((text_eq_iff j k).0 e) h in
      rw (lookup-insert, same, e) refl
  | inr e ↦ rw (lookup-insert, e) refl
]

pub or_else-none : {A : Type 0} (o : Option A) → or_else o none ≡ o
or_else-none none = refl
or_else-none (some a) = refl

pub lookup-requeue_all :
    (k : Text) (batch dirty : Dict Payload)
    → lookup k (requeue_all batch dirty) ≡ or_else (lookup k dirty) (lookup k batch)
unfolding requeue_all
lookup-requeue_all k [] dirty = rw lookup-empty (sym (or_else-none (lookup k dirty)))
lookup-requeue_all k ((j, v) ∷ batch) dirty =
    lookup-requeue_all k batch (requeue_one j v (lookup j dirty) dirty)
    ∙ requeue_one-lookup k j v (lookup j dirty) batch dirty refl

requeue_one-Once :
    (j : Text) (v : Payload) (o : Option Payload) (dirty : Dict Payload)
    → Once dirty
    → Once (requeue_one j v o dirty)
unfolding requeue_one
requeue_one-Once j v (some _) dirty h = h
requeue_one-Once j v none dirty h = Once-insert j v dirty h

pub Once-requeue_all : (batch dirty : Dict Payload) → Once dirty → Once (requeue_all batch dirty)
unfolding requeue_all
Once-requeue_all [] dirty h = h
Once-requeue_all ((j, v) ∷ batch) dirty h =
    Once-requeue_all batch (requeue_one j v (lookup j dirty) dirty)
      (requeue_one-Once j v (lookup j dirty) dirty h)
