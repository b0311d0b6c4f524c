-- ===== src/Alert/Service/Ancestors/Reaching.antt =====
-- alert/service.go: evaluateAncestorsLocked ends, and evaluates each summary above an output once.
use go_scada.Base.{
  if_cases, ℕ, zero, suc, ◌+◌, ◌≤◌, Text, true, false, ◌||◌, ◌≡◌, refl, sym, ap, ◌↔◌, List, [], ◌∷◌,
  ◌++◌, Dict, lookup, mem_text, mem_text-append, Distinct, length, length-append, text_eq,
  text_eq_iff, if◌then◌else◌, Bool-cases, inl, inr, arith, subst,
}
use go_scada.Alert.Service.{Environment, Definition, Service, parents_of}
use go_scada.Alert.Service.Evaluating.{evaluate_definition}
use go_scada.Alert.Service.Ancestors.{
  Walk, walk, walk_step, walk_fuel, walk_ancestors, parents_above, all_above,
}
use go_scada.Alert.Service.Keeping.{evaluate_definition-keeps}
use go_scada.Alert.Service.Keeping.Frame.{Framed, Framed-refl, Framed-Keeps}

module _ (ds : Dict Definition) (ps : Dict (List Text)) where
  -- The parents that the definitions not yet seen can append.
  abbrev unseen_above : Dict Definition → List Text → ℕ
  unseen_above [] seen = 0
  unseen_above ((subject, d) ∷ es) seen =
      let rest = unseen_above es seen in
      if mem_text subject seen then rest else length (parents_of d.output ps) + rest

  unseen_above-all : (es : Dict Definition) → unseen_above es [] ≡ all_above es ps
  unfolding all_above mem_text
  unseen_above-all [] = refl
  unseen_above-all ((subject, d) ∷ es) =
      ap (λ n. length (parents_of d.output ps) + n) (unseen_above-all es)

  unseen_above-le :
      (es : Dict Definition) (t : Text) (seen : List Text)
      → unseen_above es (t ∷ seen) ≤ unseen_above es seen
  unfolding mem_text
  unseen_above-le [] t seen = omega arith
  unseen_above-le ((subject, d) ∷ es) t seen = ground (arith, unseen_above-le es t seen)

  unseen_above-step :
      (es : Dict Definition) (t : Text) (seen : List Text)
      → mem_text t seen ≡ false
      → length (parents_above (lookup t es) ps) + unseen_above es (t ∷ seen) ≤ unseen_above es seen
  unfolding mem_text lookup
  unseen_above-step [] t seen h = omega arith
  unseen_above-step ((subject, d) ∷ es) t seen h = elim (Bool-cases (text_eq subject t)) [
    | inl same ↦ ground (
      arith,
      unseen_above-le es t seen,
      text_eq_iff subject t,
      text_eq_iff t subject,
      subst (λ u. mem_text u seen ≡ false) (sym ((text_eq_iff subject t).0 same)) h,
    )
    | inr other ↦
        ground (arith, unseen_above-step es t seen h, text_eq_iff subject t, text_eq_iff t subject)
  ]

  -- The summaries above an output: its parents, and the parents of the outputs of those.
  pub data Above (output : Text) : Text → Type 0 where
    parent : {t : Text} → mem_text t (parents_of output ps) ≡ true → Above output t
    further :
        {t u : Text}
        → Above output t
        → mem_text u (parents_above (lookup t ds) ps) ≡ true
        → Above output u

module _ (env : Environment) (s0 : Service) where
  step-Framed :
      (subject : Text) (s : Service) → Framed s0 s → Framed s0 (evaluate_definition env subject s)
  step-Framed subject s h =
      evaluate_definition-keeps env (Framed s0) (Framed-Keeps env s0) subject s h

  abbrev above : Text → List Text
  above subject = parents_above (lookup subject s0.definitions) s0.parents

  -- The queue after a subject that was not seen.
  queue-step :
      (subject : Text) (rest : List Text) (s : Service)
      → Framed s0 s
      → (rest
          ++ parents_above
              (lookup subject (evaluate_definition env subject s).definitions)
              (evaluate_definition env subject s).parents)
        ≡ rest ++ above subject
  queue-step subject rest s h = let k = step-Framed subject s h in rw (k.definitions, k.parents)

  -- What one round keeps and changes, in terms of the first service.
  walk-rule :
      (P : List Text → List Text → Type 0)
      → ((subject : Text) (rest seen : List Text)
          → mem_text subject seen ≡ true
          → P (subject ∷ rest) seen
          → P rest seen)
      → ((subject : Text) (rest seen : List Text)
          → mem_text subject seen ≡ false
          → P (subject ∷ rest) seen
          → P (rest ++ above subject) (subject ∷ seen))
      → (fuel : ℕ) (queue seen : List Text) (s : Service) → Framed s0 s
      → P queue seen
      → P (walk env fuel queue seen s).queue (walk env fuel queue seen s).seen
  unfolding walk walk_step
  walk-rule P skip step zero queue seen s f h = h
  walk-rule P skip step (suc fuel) [] seen s f h = h
  walk-rule P skip step (suc fuel) (subject ∷ rest) seen s f h =
      if_cases
        (λ (w : Walk).
          P (walk env fuel w.queue w.seen w.service).queue
            (walk env fuel w.queue w.seen w.service).seen)
        (mem_text subject seen) _ _
        (λ old. walk-rule P skip step fuel rest seen s f (skip subject rest seen old h))
        (λ new.
          walk-rule P skip step fuel _ (subject ∷ seen) (evaluate_definition env subject s)
            (step-Framed subject s f)
            (subst (λ q. P q (subject ∷ seen)) (sym (queue-step subject rest s f))
              (step subject rest seen new h)))

  walk-ends :
      (fuel : ℕ) (queue seen : List Text) (s : Service)
      → Framed s0 s
      → length queue + unseen_above s0.definitions s0.parents s0.definitions seen ≤ fuel
      → (walk env fuel queue seen s).queue ≡ []
  unfolding walk walk_step
  walk-ends zero [] seen s f h = refl
  walk-ends zero (subject ∷ rest) seen s f h = absurd (omega arith)
  walk-ends (suc fuel) [] seen s f h = refl
  walk-ends (suc fuel) (subject ∷ rest) seen s f h =
      if_cases (λ (w : Walk). (walk env fuel w.queue w.seen w.service).queue ≡ [])
        (mem_text subject seen) _ _ (λ old. walk-ends fuel rest seen s f (omega arith))
        (λ new.
          walk-ends fuel _ (subject ∷ seen) (evaluate_definition env subject s)
            (step-Framed subject s f)
            (rw (queue-step subject rest s f) (
              omega (
                arith,
                length-append rest (above subject),
                unseen_above-step s0.definitions s0.parents s0.definitions subject seen new,
              ))))

  -- The summaries above the output, in the service before the walk.
  abbrev pub IsAbove : Text → Text → Type 0
  IsAbove output t = Above s0.definitions s0.parents output t

  -- What the loop knows: the queue and the seen subjects are above the output, no subject is seen twice,
  -- and what comes after a seen subject, or first, is seen or in the queue.
  record Walked (output : Text) (queue seen : List Text) : Type 0 where
    queued : (t : Text) → mem_text t queue ≡ true → IsAbove output t
    sound : (t : Text) → mem_text t seen ≡ true → IsAbove output t
    distinct : Distinct seen
    first :
        (t : Text)
        → mem_text t (parents_of output s0.parents) ≡ true
        → (mem_text t queue || mem_text t seen) ≡ true
    closed :
        (t u : Text)
        → mem_text t seen ≡ true
        → mem_text u (above t) ≡ true
        → (mem_text u queue || mem_text u seen) ≡ true

  Walked-skip :
      (output subject : Text) (rest seen : List Text)
      → mem_text subject seen ≡ true
      → Walked output (subject ∷ rest) seen
      → Walked output rest seen
  unfolding mem_text
  Walked-skip output subject rest seen old h = record {
    queued = λ t m. h.queued t (ground (arith, m));
    sound = h.sound;
    distinct = h.distinct;
    first = λ t m. drop_head t (h.first t m);
    closed = λ t u m n. drop_head u (h.closed t u m n);
  }
    where
      drop_head :
          (t : Text)
          → (mem_text t (subject ∷ rest) || mem_text t seen) ≡ true
          → (mem_text t rest || mem_text t seen) ≡ true
      drop_head t k = elim (Bool-cases (text_eq subject t)) [
        | inl same ↦
            ground (arith, subst (λ u. mem_text u seen ≡ true) ((text_eq_iff subject t).0 same) old)
        | inr other ↦ ground (arith, k, other)
      ]

  Walked-step :
      (output subject : Text) (rest seen : List Text)
      → mem_text subject seen ≡ false
      → Walked output (subject ∷ rest) seen
      → Walked output (rest ++ above subject) (subject ∷ seen)
  unfolding mem_text
  Walked-step output subject rest seen new h = record {
    queued = λ t m. elim (Bool-cases (mem_text t rest)) [
      | inl old ↦ h.queued t (ground (arith, old))
      | inr fresh ↦ further here (ground (arith, m, fresh, mem_text-append t rest (above subject)))
    ];
    sound = λ t m. elim (Bool-cases (text_eq subject t)) [
      | inl same ↦ subst (IsAbove output) ((text_eq_iff subject t).0 same) here
      | inr other ↦ h.sound t (ground (arith, m, other))
    ];
    distinct = (new, h.distinct);
    first = λ t m. ground (arith, h.first t m, mem_text-append t rest (above subject));
    closed = λ t u m n. elim (Bool-cases (text_eq subject t)) [
      | inl same ↦ ground (
        arith,
        mem_text-append u rest (above subject),
        subst (λ v. mem_text u (above v) ≡ true) (sym ((text_eq_iff subject t).0 same)) n,
      )
      | inr other ↦
          ground (
            arith,
            mem_text-append u rest (above subject),
            h.closed t u (ground (arith, m, other)) n,
          )
    ];
  }
    where
      here : IsAbove output subject
      here = h.queued subject (ground (arith, text_eq_iff subject subject))

  Walked-start : (output : Text) → Walked output (parents_of output s0.parents) []
  unfolding mem_text
  Walked-start output = record {
    queued = λ t m. parent m;
    sound = λ t m. absurd cc;
    distinct = tt;
    first = λ t m. ground (arith, m);
    closed = λ t u m n. absurd cc;
  }

  complete :
      (output : Text) (seen : List Text)
      → Walked output [] seen
      → {t : Text} → IsAbove output t
      → mem_text t seen ≡ true
  unfolding mem_text
  complete output seen h (parent {t} m) = ground (arith, h.first t m)
  complete output seen h (further {t} {u} a m) =
      ground (arith, h.closed t u (complete output seen h a) m)

-- The loop of evaluateAncestorsLocked ends with an empty queue within as many rounds as the parents of
-- the output and of all definitions' outputs together, whatever cycles there are among the summaries.
pub walk_ancestors_terminates :
    (env : Environment) (output : Text) (s : Service) → (walk_ancestors env output [] s).queue ≡ []
unfolding walk_ancestors walk_fuel
walk_ancestors_terminates env output s =
    walk-ends env s (walk_fuel env output s) (parents_of output s.parents) [] s (Framed-refl s)
      (omega (arith, unseen_above-all s.definitions s.parents s.definitions))

-- evaluateAncestorsLocked evaluates exactly the summaries above the output: its parents, the parents of
-- their outputs, and so on. It evaluates each of them once.
pub walk_ancestors_exact :
    (env : Environment) (output : Text) (s : Service)
    → Distinct (walk_ancestors env output [] s).seen
      × ((t : Text)
          → (mem_text t (walk_ancestors env output [] s).seen ≡ true)
            ↔ Above s.definitions s.parents output t)
unfolding walk_ancestors
walk_ancestors_exact env output s =
    let w = walk_ancestors env output [] s in
    let walked : Walked env s output w.queue w.seen =
      walk-rule env s (Walked env s output) (Walked-skip env s output) (Walked-step env s output)
        (walk_fuel env output s) (parents_of output s.parents) [] s (Framed-refl s)
        (Walked-start env s output) in
    let ended =
      subst (λ q. Walked env s output q w.seen) (walk_ancestors_terminates env output s) walked in
    (ended.distinct, λ t. (ended.sound t, complete env s output w.seen ended))
