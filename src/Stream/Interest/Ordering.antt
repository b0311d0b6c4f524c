-- ===== src/Stream/Interest/Ordering.antt =====
-- The order in which the workers of stream/interest.go handle the jobs of a subject.
use mathlib.Core.List.{append_assoc, append-nil}
use go_scada.Base.{
  ℕ, ◌<◌, Text, Bool, true, false, ◌==◌, ==_iff, ◌≡◌, List, [], ◌∷◌, ◌++◌, length, text_eq,
  text_eq_iff, if◌then◌else◌, filter, filter-append, refl, sym, ◌∙◌, ap, ap₂, arith, Bool-cases,
  inl, inr, subst,
}
use go_scada.Stream.Interest.{
  Job, Exact, worker_queue, worker_index, subscribe_exact, enqueue, dequeue, dispatch, take_job,
  run_worker,
}

-- What the subscription goes through until it is stopped, with the jobs dispatched so far. A channel
-- that is full blocks.
pub data Run (system : Text) : List Job → Exact → Type 0 where
  begun : Run system [] (subscribe_exact system)
  dispatching :
      (log : List Job) (x : Exact) (job : Job)
      → length (x.queues (worker_index job.subject x.workers)) < worker_queue
      → Run system log x
      → Run system (log ++ job ∷ []) (dispatch job x)
  working :
      (log : List Job) (x : Exact) (i : ℕ) → Run system log x → Run system log (run_worker i x)

abbrev pub jobs_of : Text → List Job → List Job
jobs_of subject jobs = filter (λ j. text_eq j.subject subject) jobs

-- The jobs of a subject are those handled and then those that wait for its worker.
pub record InOrder (subject : Text) (log : List Job) (x : Exact) : Type 0 where
  pub own :
      jobs_of subject x.handled ++ jobs_of subject (x.queues (worker_index subject x.workers))
      ≡ jobs_of subject log
  pub others :
      (i : ℕ) → (i == worker_index subject x.workers) ≡ false → jobs_of subject (x.queues i) ≡ []

jobs_of-enqueue :
    (subject : Text) (i j : ℕ) (job : Job) (queues : ℕ → List Job)
    → jobs_of subject (enqueue i job queues j)
      ≡ jobs_of subject (queues j) ++ (if j == i then jobs_of subject (job ∷ []) else [])
unfolding enqueue
jobs_of-enqueue subject i j job queues = elim (Bool-cases (j == i)) [
  | inl e ↦ rw (e, filter-append) refl
  | inr e ↦ rw (e, append-nil) refl
]

not_of :
    (subject : Text) (job : Job)
    → text_eq job.subject subject ≡ false
    → jobs_of subject (job ∷ []) ≡ []
not_of subject job h = rw h refl

either_empty : (b : Bool) (jobs : List Job) → jobs ≡ [] → (if b then jobs else []) ≡ []
either_empty true jobs h = h
either_empty false jobs h = refl

own_tail :
    (subject : Text) (n : ℕ) (job : Job)
    → (if worker_index subject n == worker_index job.subject n
        then jobs_of subject (job ∷ [])
        else [])
      ≡ jobs_of subject (job ∷ [])
own_tail subject n job = elim (Bool-cases (text_eq job.subject subject)) [
  | inl e ↦
      let same : worker_index subject n == worker_index job.subject n ≡ true =
        (==_iff (worker_index subject n) (worker_index job.subject n)).1
          (ap (λ s. worker_index s n) (sym ((text_eq_iff job.subject subject).0 e))) in
      rw same refl
  | inr e ↦ either_empty _ _ (not_of subject job e) ∙ sym (not_of subject job e)
]

other_tail :
    (subject : Text) (n i : ℕ) (job : Job)
    → (i == worker_index subject n) ≡ false
    → (if i == worker_index job.subject n then jobs_of subject (job ∷ []) else []) ≡ []
other_tail subject n i job k = elim (Bool-cases (text_eq job.subject subject)) [
  | inl e ↦
      let other : (i == worker_index job.subject n) ≡ false =
        subst (λ s. (i == worker_index s n) ≡ false) (sym ((text_eq_iff job.subject subject).0 e))
          k in
      rw other refl
  | inr e ↦ either_empty _ _ (not_of subject job e)
]

dispatch-InOrder :
    (subject : Text) (log : List Job) (x : Exact) (job : Job)
    → InOrder subject log x
    → InOrder subject (log ++ job ∷ []) (dispatch job x)
unfolding dispatch
dispatch-InOrder subject log x job h = record {
  own =
      ap (λ l. jobs_of subject x.handled ++ l) (jobs_of-enqueue subject _ _ job x.queues)
      ∙ sym (append_assoc (jobs_of subject x.handled) _ _)
      ∙ ap₂ (λ a b. a ++ b) h.own (own_tail subject x.workers job)
      ∙ sym (filter-append (λ j. text_eq j.subject subject) log (job ∷ []));
  others = λ i k.
      jobs_of-enqueue subject _ i job x.queues
      ∙ ap₂ (λ a b. a ++ b) (h.others i k) (other_tail subject x.workers i job k);
}

first_empty :
    (subject : Text) (job : Job) (rest : List Job)
    → jobs_of subject (job ∷ rest) ≡ []
    → (jobs_of subject (job ∷ []) ≡ []) × (jobs_of subject rest ≡ [])
first_empty subject job rest h = elim (Bool-cases (text_eq job.subject subject)) [
  | inl e ↦ absurd (taken e h)
  | inr e ↦ (not_of subject job e, kept e h)
]
  where
    taken : text_eq job.subject subject ≡ true → jobs_of subject (job ∷ rest) ≡ [] → ⊥
    taken e k = ground (arith, e, k)

    kept :
        text_eq job.subject subject ≡ false
        → jobs_of subject (job ∷ rest) ≡ []
        → jobs_of subject rest ≡ []
    kept e k = ground (arith, e, k)

dequeue-own :
    (subject : Text) (x : Exact) (w i : ℕ) (job : Job) (rest log : List Job)
    → x.queues i ≡ job ∷ rest
    → jobs_of subject x.handled ++ jobs_of subject (x.queues w) ≡ log
    → ((w == i) ≡ false → jobs_of subject (x.queues i) ≡ [])
    → jobs_of subject (x.handled ++ job ∷ []) ++ jobs_of subject (dequeue i rest x.queues w) ≡ log
unfolding dequeue
dequeue-own subject x w i job rest log q own other = elim (Bool-cases (w == i)) [
  | inl e ↦
      let same : w ≡ i = (==_iff w i).0 e in
      rw (e, filter-append, append_assoc)
        (ap (λ l. jobs_of subject x.handled ++ l)
            (sym (filter-append (λ j. text_eq j.subject subject) (job ∷ []) rest))
          ∙ ap (λ l. jobs_of subject x.handled ++ jobs_of subject l) (sym (ap x.queues same ∙ q))
          ∙ own)
  | inr e ↦
      let empty = (first_empty subject job rest (ap (jobs_of subject) (sym q) ∙ other e)).0 in
      rw (e, filter-append, empty, append-nil) own
]

take_job-InOrder :
    (subject : Text) (log : List Job) (x : Exact) (i : ℕ) (jobs : List Job)
    → x.queues i ≡ jobs
    → InOrder subject log x
    → InOrder subject log (take_job i jobs x)
unfolding take_job dequeue
take_job-InOrder subject log x i [] q h = h
take_job-InOrder subject log x i (job ∷ rest) q h = record {
  own =
      dequeue-own subject x (worker_index subject x.workers) i job rest _ q h.own
        (λ e. h.others i (flip e));
  others = λ j k. dequeued j k;
}
  where
    dequeued :
        (j : ℕ)
        → (j == worker_index subject x.workers) ≡ false
        → jobs_of subject (dequeue i rest x.queues j) ≡ []
    dequeued j k = elim (Bool-cases (j == i)) [
      | inl e ↦
          let same : j ≡ i = (==_iff j i).0 e in
          rw e (
            (first_empty subject job rest (
              ap (jobs_of subject) (sym q)
              ∙ h.others i (subst (λ n. (n == worker_index subject x.workers) ≡ false) same k))).1)
      | inr e ↦ rw e (h.others j k)
    ]

    flip :
        (worker_index subject x.workers == i) ≡ false
        → (i == worker_index subject x.workers) ≡ false
    flip e = ground (arith, e)

-- Whatever the interleaving of dispatches and workers, the jobs that the handler was called with for a
-- subject, followed by those that wait for its worker, are the jobs dispatched for it, in that order;
-- no other worker has one of them.
pub Run-InOrder :
    (system subject : Text) (log : List Job) (x : Exact) → Run system log x → InOrder subject log x
unfolding run_worker subscribe_exact
Run-InOrder system subject _ _ begun = record { own = refl; others = λ i k. refl }
Run-InOrder system subject _ _ (dispatching log x job room r) =
    dispatch-InOrder subject log x job (Run-InOrder system subject log x r)
Run-InOrder system subject _ _ (working log x i r) =
    take_job-InOrder subject log x i (x.queues i) refl (Run-InOrder system subject log x r)
