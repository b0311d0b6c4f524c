-- ===== src/Alert/Service/Ancestors/Depth.antt =====
-- alert/service.go: acknowledgeTreeLocked ends: its depth is bounded by the members of the definitions.
use go_scada.Base.{
  ℕ, zero, suc, ◌+◌, ◌≤◌, Text, true, ◌≡◌, refl, ◌∙◌, ap, List, [], ◌∷◌, Option, none, some, lookup,
  mem_text, length, arith, text_eq_refl, Bool-cases, inl, inr,
}
use go_scada.Alert.Service.{
  Environment, Definition, Service, all_members, summary_members, definition_for_output,
}
use go_scada.Alert.Service.Evaluating.{acknowledge_one}
use go_scada.Alert.Service.Ancestors.{
  needs_acknowledgement, acknowledge_members, members_below, acknowledge_tree,
}
use go_scada.Alert.Service.Cycles.{members_in, members_of}
use go_scada.Alert.Service.Cycles.Search.{free, free-step, free-nil}
use go_scada.Alert.Service.Cycles.Order.{members_of-all}
use go_scada.Alert.Service.Handlers.{acknowledge_all}
use go_scada.Alert.Service.Keeping.Walks.{acknowledge_tree-keeps}
use go_scada.Alert.Service.Keeping.Frame.{Framed, Framed-refl, Framed-Keeps}

members_below-of :
    (env : Environment) (s : Service) (x : Text)
    → members_below env (definition_for_output x s) ≡ members_of s x
unfolding members_in
members_below-of env s x = of (definition_for_output x s)
  where
    of :
        (o : Option Definition)
        → members_below env o ≡ (elim o [ none ↦ [] | some d ↦ summary_members d.config ])
    of none = refl
    of (some d) = refl

module _ (env : Environment) (s0 : Service) (start : Text) where
  abbrev nodes : List Text
  nodes = start ∷ all_members s0.definitions

  abbrev waiting : List Text → ℕ
  waiting visiting = free (members_of s0) nodes (members_of-all s0 start) nodes visiting

  -- The members of an output are the same during an acknowledgement.
  members_below-Framed :
      (s : Service) (x : Text)
      → Framed s0 s
      → members_below env (definition_for_output x s) ≡ members_of s0 x
  members_below-Framed s x f = members_below-of env s x ∙ rw (f.definitions, f.by_output)

  tree-Framed :
      (depth : ℕ) (visiting : List Text) (x : Text) (s : Service)
      → Framed s0 s
      → Framed s0 (acknowledge_tree env depth visiting x s)
  tree-Framed depth visiting x s f =
      acknowledge_tree-keeps env (Framed s0) (Framed-Keeps env s0) depth visiting x s f

  -- Two recursive calls that agree on the members make loops that agree.
  acknowledge_members-agree :
      (go to : Text → Service → Service)
      → ((m : Text) (s : Service) → Framed s0 s → Framed s0 (to m s))
      → (ms : List Text)
      → ((m : Text) (s : Service) → mem_text m ms ≡ true → Framed s0 s → go m s ≡ to m s)
      → (s : Service) → Framed s0 s
      → acknowledge_members env go ms s ≡ acknowledge_members env to ms s
  unfolding acknowledge_members mem_text
  acknowledge_members-agree go to kept [] same s f = refl
  acknowledge_members-agree go to kept (m ∷ ms) same s f =
      elim (Bool-cases (needs_acknowledgement env (lookup m s.states))) [
        | inl needs ↦
            rw (needs, same m s (ground (arith, text_eq_refl m)) f)
              (acknowledge_members-agree go to kept ms
                (λ n t among. same n t (ground (arith, among))) (to m s) (kept m s f))
        | inr idle ↦ rw idle (
            acknowledge_members-agree go to kept ms (λ n t among. same n t (ground (arith, among)))
              s f)
      ]

  deeper :
      (depth : ℕ) (visiting : List Text) (x : Text) (s : Service)
      → Framed s0 s
      → mem_text x nodes ≡ true
      → suc (waiting visiting) ≤ depth
      → acknowledge_tree env (suc depth) visiting x s ≡ acknowledge_tree env depth visiting x s
  unfolding acknowledge_tree
  deeper zero visiting x s f here h = absurd (omega arith)
  deeper (suc depth) visiting x s f here h = elim (Bool-cases (mem_text x visiting)) [
    | inl again ↦ rw again
    | inr fresh ↦
        rw (fresh, members_below-Framed s x f)
          (ap (acknowledge_one env x) (
            acknowledge_members-agree (acknowledge_tree env (suc depth) (x ∷ visiting))
              (acknowledge_tree env depth (x ∷ visiting)) (tree-Framed depth (x ∷ visiting))
              (members_of s0 x)
              (λ m t among g.
                deeper depth (x ∷ visiting) m t g (members_of-all s0 start x m among) (
                  omega (
                    arith,
                    free-step (members_of s0) nodes (members_of-all s0 start) nodes x visiting here
                        fresh,
                  )))
              s f))
  ]

  deep :
      (more depth : ℕ)
      → suc (waiting []) ≤ depth
      → acknowledge_tree env (more + depth) [] start s0 ≡ acknowledge_tree env depth [] start s0
  unfolding mem_text
  deep zero depth h =
      let same : 0 + depth ≡ depth = omega arith in
      ap (λ n. acknowledge_tree env n [] start s0) same
  deep (suc more) depth h =
      let same : suc more + depth ≡ suc (more + depth) = omega arith in
      ap (λ n. acknowledge_tree env n [] start s0) same
      ∙ deeper (more + depth) [] start s0 (Framed-refl s0) (ground (arith, text_eq_refl start))
          (omega arith)
      ∙ deep more depth h

-- acknowledgeTreeLocked ends: a greater depth gives nothing else, whatever cycles there are. The depth
-- given is one more than the output and the members of all definitions.
pub acknowledge_all_ends :
    (env : Environment) (subject : Text) (s : Service) (more : ℕ)
    → acknowledge_tree env (more + suc (suc (length (all_members s.definitions)))) [] subject s
      ≡ acknowledge_all env subject s
unfolding acknowledge_all
acknowledge_all_ends env subject s more =
    deep env s subject more (suc (suc (length (all_members s.definitions)))) (
      omega (
        arith,
        free-nil (members_of s) (subject ∷ all_members s.definitions) (members_of-all s subject)
            (subject ∷ all_members s.definitions),
      ))
