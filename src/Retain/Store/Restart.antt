-- ===== src/Retain/Store/Restart.antt =====
-- What Get of retain/store.go returns after a run of the store, and after a restart.
use go_scada.Base.{
  Text, Bool, true, false, ◌≡◌, [], ◌∷◌, Option, none, some, is_empty, if◌then◌else◌, Dict, lookup,
  lookup-insert, refl, sym, ◌∙◌, ap, text_eq, ◌⊎◌, inl, inr, Once,
}
use go_scada.Retain.Store.{
  Payload, Store, open_store, put, get, take_dirty, requeue, finish_flush, flush_dirty, close,
  Outcome, committed, rolled_back, commit_failed, commit_unknown, flush_nonempty,
}
use go_scada.Retain.Store.Flushing.{
  IsConsistent, Run, opened, putting, taking, finishing, Run-IsConsistent, take_dirty-IsConsistent,
  finish_flush-IsConsistent, or_else_empty, open_store-IsConsistent,
}
use go_scada.Retain.Store.Flushing.Maps.{or_else}

finish_flush-values : (outcome : Outcome) (s : Store) → (finish_flush outcome s).values ≡ s.values
unfolding finish_flush requeue
finish_flush-values committed s = refl
finish_flush-values rolled_back s = refl
finish_flush-values commit_failed s = refl
finish_flush-values commit_unknown s = refl

finish_flush-batch : (outcome : Outcome) (s : Store) → (finish_flush outcome s).batch ≡ []
unfolding finish_flush requeue
finish_flush-batch committed s = refl
finish_flush-batch rolled_back s = refl
finish_flush-batch commit_failed s = refl
finish_flush-batch commit_unknown s = refl

get-open_store :
    (k : Text) (table : Dict Payload) → Once table → get k (open_store table) ≡ lookup k table
unfolding get open_store lookup
get-open_store k table once = (open_store-IsConsistent table once).latest k ∙ opened_table
  where
    opened_table :
        or_else
          (lookup k (open_store table).dirty)
          (or_else (lookup k (open_store table).batch) (lookup k (open_store table).table))
        ≡ lookup k table
    opened_table = or_else_empty k _ ∙ or_else_empty k _

get-put :
    (k subject : Text) (payload : Payload) (s : Store)
    → is_empty subject ≡ false
    → get k (put subject payload s) ≡ (if text_eq subject k then some payload else get k s)
unfolding get put
get-put k subject payload s h = rw h (lookup-insert subject k payload s.values)

last_put :
    (same : Bool) (payload : Payload) (now before first : Option Payload)
    → now ≡ or_else before first
    → (if same then some payload else now) ≡ or_else (if same then some payload else before) first
last_put true payload now before first h = refl
last_put false payload now before first h = h

-- After any run, Get finds the payload of the last Put of the subject, or else the one of the table
-- that was opened, whatever became of the transactions in between.
pub get_latest :
    (table log : Dict Payload) (s : Store) (k : Text)
    → Once table
    → Run table log s
    → get k s ≡ or_else (lookup k log) (lookup k table)
unfolding lookup get take_dirty
get_latest table _ _ k once opened = get-open_store k table once
get_latest table _ _ k once (putting log s subject payload h r) =
    get-put k subject payload s h
    ∙ last_put (text_eq subject k) payload (get k s) (lookup k log) (lookup k table)
        (get_latest table log s k once r)
get_latest table _ _ k once (taking log s h r) = get_latest table log s k once r
get_latest table _ _ k once (finishing log s outcome r) =
    ap (lookup k) (finish_flush-values outcome s) ∙ get_latest table log s k once r

flush_dirty-IsConsistent :
    (outcome : Outcome) (s : Store)
    → s.batch ≡ []
    → IsConsistent s
    → IsConsistent (flush_dirty outcome s)
unfolding flush_dirty
flush_dirty-IsConsistent outcome s h c = go s.dirty
  where
    go : (d : Dict Payload) → IsConsistent (flush_nonempty outcome d s)
    go [] = c
    go (_ ∷ _) = finish_flush-IsConsistent outcome (take_dirty s) (take_dirty-IsConsistent s h c)

flush_dirty-batch :
    (outcome : Outcome) (s : Store) → s.batch ≡ [] → (flush_dirty outcome s).batch ≡ []
unfolding flush_dirty
flush_dirty-batch outcome s h = go s.dirty
  where
    go : (d : Dict Payload) → (flush_nonempty outcome d s).batch ≡ []
    go [] = h
    go (_ ∷ _) = finish_flush-batch outcome (take_dirty s)

flush_dirty-values : (outcome : Outcome) (s : Store) → (flush_dirty outcome s).values ≡ s.values
unfolding flush_dirty take_dirty
flush_dirty-values outcome s = go s.dirty
  where
    go : (d : Dict Payload) → (flush_nonempty outcome d s).values ≡ s.values
    go [] = refl
    go (_ ∷ _) = finish_flush-values outcome (take_dirty s)

flush_dirty-clean : (s : Store) → (flush_dirty committed s).dirty ≡ []
unfolding flush_dirty finish_flush take_dirty
flush_dirty-clean s = go s.dirty refl
  where
    go : (d : Dict Payload) → s.dirty ≡ d → (flush_nonempty committed d s).dirty ≡ []
    go [] e = e
    go (_ ∷ _) e = refl

flush_dirty_again : (outcome : Outcome) (s : Store) → s.dirty ≡ [] → flush_dirty outcome s ≡ s
unfolding flush_dirty
flush_dirty_again outcome s e = ap (λ d. flush_nonempty outcome d s) e

clean_table :
    (k : Text) (s : Store)
    → IsConsistent s
    → s.batch ≡ []
    → s.dirty ≡ []
    → lookup k s.table ≡ lookup k s.values
clean_table k s c b d = sym (c.latest k ∙ rw (d, b) (or_else_empty k _ ∙ or_else_empty k _))

close-clean :
    (first second : Outcome) (s : Store)
    → (first ≡ committed) ⊎ (second ≡ committed)
    → (flush_dirty second (flush_dirty first s)).dirty ≡ []
close-clean first second s (inl e) = rw e (
    let first_clean = flush_dirty-clean s in
    ap (λ t. t.dirty) (flush_dirty_again second (flush_dirty committed s) first_clean)
    ∙ first_clean)
close-clean first second s (inr e) = rw e (flush_dirty-clean (flush_dirty first s))

-- A store that is closed after any run, no flush being under way, keeps every value if one of the two
-- flushes of Close commits: the store opened on its table gives what Get gave before Close.
pub close-durable :
    (table log : Dict Payload) (s : Store) (first second : Outcome) (k : Text)
    → Once table
    → Run table log s
    → s.batch ≡ []
    → (first ≡ committed) ⊎ (second ≡ committed)
    → get k (open_store (close first second s).table) ≡ get k s
unfolding close get
close-durable table log s first second k once r idle ends =
    let c = Run-IsConsistent table log s once r in
    let b1 = flush_dirty-batch first s idle in
    let c1 = flush_dirty-IsConsistent first s idle c in
    let c2 = flush_dirty-IsConsistent second (flush_dirty first s) b1 c1 in
    let b2 = flush_dirty-batch second (flush_dirty first s) b1 in
    get-open_store k _ c2.once_table
    ∙ clean_table k _ c2 b2 (close-clean first second s ends)
    ∙ ap (lookup k) (flush_dirty-values second (flush_dirty first s) ∙ flush_dirty-values first s)

-- A store that stops at any moment of a run loses at most what was dirty or in flight: a store opened on
-- its table gives the same for every other subject.
pub crash-durable :
    (table log : Dict Payload) (s : Store) (k : Text)
    → Once table
    → Run table log s
    → lookup k s.dirty ≡ none
    → lookup k s.batch ≡ none
    → get k (open_store s.table) ≡ get k s
unfolding get
crash-durable table log s k once r d b =
    let c = Run-IsConsistent table log s once r in
    get-open_store k s.table c.once_table ∙ sym (c.latest k ∙ rw (d, b) refl)
