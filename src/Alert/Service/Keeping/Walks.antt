-- ===== src/Alert/Service/Keeping/Walks.antt =====
-- alert/service.go: what the walks over ancestors, summaries and members keep, once an evaluation does.
use go_scada.Base.{
  ℕ, zero, suc, Text, Bool, false, List, [], ◌∷◌, Dict, lookup, if_cases, mem_text, length,
}
use go_scada.Alert.Service.{Environment, Definition, Service, is_summary, parents_of}
use go_scada.Alert.Service.Ancestors.{
  Walk, walk, walk_step, walk_fuel, walk_ancestors, evaluate_ancestors, summaries_pass,
  summaries_passes, evaluate_all_summaries, needs_acknowledgement, acknowledge_members,
  acknowledge_tree,
}
use go_scada.Alert.Service.Keeping.{Keeps, evaluate_definition-keeps, acknowledge_one-keeps}

module _ (env : Environment) (P : Service → Type 0) (keeps : Keeps env P) where
  abbrev KeptBy : Walk → Type 0
  KeptBy w = P w.service

  walk_step-keeps :
      (subject : Text) (rest seen : List Text) (s : Service)
      → P s
      → KeptBy (walk_step env subject rest seen s)
  unfolding walk_step
  walk_step-keeps subject rest seen s h =
      if_cases KeptBy (mem_text subject seen) _ _ (λ _. h)
        (λ _. evaluate_definition-keeps env P keeps subject s h)

  walk-keeps :
      (fuel : ℕ) (queue seen : List Text) (s : Service)
      → P s
      → P (walk env fuel queue seen s).service
  unfolding walk
  walk-keeps zero queue seen s h = h
  walk-keeps (suc fuel) [] seen s h = h
  walk-keeps (suc fuel) (subject ∷ rest) seen s h =
      let w = walk_step env subject rest seen s in
      walk-keeps fuel w.queue w.seen w.service (walk_step-keeps subject rest seen s h)

  pub walk_ancestors-keeps :
      (output : Text) (seen : List Text) (s : Service)
      → P s
      → P (walk_ancestors env output seen s).service
  unfolding walk_ancestors
  walk_ancestors-keeps output seen s h =
      walk-keeps (walk_fuel env output s) (parents_of output s.parents) seen s h

  pub evaluate_ancestors-keeps :
      (output : Text) (s : Service) → P s → P (evaluate_ancestors env output s)
  unfolding evaluate_ancestors
  evaluate_ancestors-keeps output s h = walk_ancestors-keeps output [] s h

  abbrev PassKept : Bool × Service → Type 0
  PassKept (changed, s) = P s

  summaries_pass-keeps :
      (ds : Dict Definition) (changed : Bool) (s : Service)
      → P s
      → PassKept (summaries_pass env ds changed s)
  unfolding summaries_pass
  summaries_pass-keeps [] changed s h = h
  summaries_pass-keeps ((subject, d) ∷ ds) changed s h =
      if_cases PassKept (is_summary d.config.kind) _ _
        (λ _. summaries_pass-keeps ds _ _ (evaluate_definition-keeps env P keeps subject s h))
        (λ _. summaries_pass-keeps ds changed s h)

  summaries_passes-keeps : (passes : ℕ) (s : Service) → P s → P (summaries_passes env passes s)
  unfolding summaries_passes
  summaries_passes-keeps zero s h = h
  summaries_passes-keeps (suc passes) s h =
      let kept = summaries_pass-keeps s.definitions false s h in
      if_cases P (summaries_pass env s.definitions false s).0 _ _
        (λ _. summaries_passes-keeps passes _ kept) (λ _. kept)

  pub evaluate_all_summaries-keeps : (s : Service) → P s → P (evaluate_all_summaries env s)
  unfolding evaluate_all_summaries
  evaluate_all_summaries-keeps s h = summaries_passes-keeps (suc (length s.definitions)) s h

  acknowledge_members-keeps :
      (visit : Text → Service → Service)
      → ((member : Text) (s : Service) → P s → P (visit member s))
      → (members : List Text) (s : Service) → P s
      → P (acknowledge_members env visit members s)
  unfolding acknowledge_members
  acknowledge_members-keeps visit kept [] s h = h
  acknowledge_members-keeps visit kept (member ∷ members) s h =
      acknowledge_members-keeps visit kept members _ (
        if_cases P (needs_acknowledgement env (lookup member s.states)) _ _ (λ _. kept member s h)
          (λ _. h))

  pub acknowledge_tree-keeps :
      (depth : ℕ) (visiting : List Text) (subject : Text) (s : Service)
      → P s
      → P (acknowledge_tree env depth visiting subject s)
  unfolding acknowledge_tree
  acknowledge_tree-keeps zero visiting subject s h = h
  acknowledge_tree-keeps (suc depth) visiting subject s h =
      if_cases P (mem_text subject visiting) _ _ (λ _. h)
        (λ _. acknowledge_one-keeps env P keeps subject _ (
          acknowledge_members-keeps (acknowledge_tree env depth (subject ∷ visiting))
            (acknowledge_tree-keeps depth (subject ∷ visiting)) _ s h))
