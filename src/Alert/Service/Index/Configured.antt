-- ===== src/Alert/Service/Index/Configured.antt =====
-- alert/service.go: the maps fit each other, and no summary contains itself, whatever arrives.
use go_scada.Base.{
  Text, true, ◌≡◌, refl, sym, ◌∙◌, List, Option, none, some, ok, Dict, lookup, insert, remove,
  if_cases, mem_text, text_eq, text_eq_iff, text_eq_refl, lookup-insert, lookup-remove, Bool-cases,
  inl, inr, arith, subst, ap,
}
use go_scada.Value.{Value}
use go_scada.Alert.Protocol.{output_subject}
use go_scada.Alert.Service.{
  Environment, Definition, Service, summary_members, hook_all, hook_parents, unhook_all,
  unhook_parents, remove_found, remove_definition, name_of,
}
use go_scada.Alert.Service.Cycles.{members_in, members_of, summary_cycle}
use go_scada.Alert.Service.Cycles.Search.{HasCycle}
use go_scada.Alert.Service.Cycles.Order.{summary_cycle_iff}
use go_scada.Alert.Service.Evaluating.{send}
use go_scada.Alert.Service.Handlers.{
  set_input, watch_state_in, watch_state, drop_output, add_summary,
}
use go_scada.Alert.Service.Keeping.{Keeps, evaluate_definition-keeps}
use go_scada.Alert.Service.Keeping.Walks.{evaluate_ancestors-keeps}
use go_scada.Alert.Service.Keeping.Frame.{Framed, Framed-refl}
use go_scada.Alert.Service.Keeping.Receiving.{Receives, watch_members-keeps, drop_output-keeps}
use go_scada.Alert.Service.Index.{Indexed, Acyclic, IsIndexed, has_member, mem-members_in}
use go_scada.Alert.Service.Index.Changes.{Indexed-remove, Acyclic-remove, Leads-mono}
use go_scada.Alert.Service.Index.Adding.{Indexed-insert, Acyclic-insert, Acyclic-undo}

IsIndexed-Keeps : (env : Environment) → Keeps env IsIndexed
unfolding send
IsIndexed-Keeps env = record {
  sends = λ subject encoded s h.
      if_cases IsIndexed (env.publishes s.calls subject encoded) _ _ (λ _. h) (λ _. h);
  ticks = λ s h. h;
  stores = λ subject state s v h. h;
}

-- A new input of a definition changes nothing in the maps' keys, outputs and members.
module _ (subject : Text) (d : Definition) (v : Value) (ds : Dict Definition) (outs : Dict Text)
    (ps : Dict (List Text)) (found : lookup subject ds ≡ some d) where
  abbrev changed : Definition
  changed = record d { input = some v }

  lookup-changed :
      (t : Text) (e : Definition)
      → lookup t (insert subject changed ds) ≡ some e
      → (c : Definition) × (lookup t ds ≡ some c) × (c.output ≡ e.output)
  lookup-changed t e k = elim (Bool-cases (text_eq subject t)) [
    | inl same ↦
        let is : changed ≡ e = ground (arith, lookup-insert subject t changed ds, k, same) in
        (
          d,
          ground (arith, found, (text_eq_iff subject t).0 same),
          ap (λ (c : Definition). c.output) is,
        )
    | inr other ↦ (e, ground (arith, lookup-insert subject t changed ds, k, other), refl)
  ]

  has_member-changed :
      (t member : Text)
      → has_member (lookup t (insert subject changed ds)) member ≡ has_member (lookup t ds) member
  has_member-changed t member = elim (Bool-cases (text_eq subject t)) [
    | inl same ↦
        ground
          (arith, lookup-insert subject t changed ds, same, (text_eq_iff subject t).0 same, found)
    | inr other ↦ ground (arith, lookup-insert subject t changed ds, other)
  ]

  members_in-changed :
      (x y : Text)
      → mem_text y (members_in (insert subject changed ds) outs x) ≡ true
      → mem_text y (members_in ds outs x) ≡ true
  members_in-changed x y m = sym (
      sym m
      ∙ mem-members_in (insert subject changed ds) outs x y
      ∙ has_member-changed (name_of (lookup x outs)) y
      ∙ sym (mem-members_in ds outs x y))

  Indexed-changed : Indexed ds outs ps → Indexed (insert subject changed ds) outs ps
  Indexed-changed h = record {
    derived =
        λ t e k. let (c, before, same) = lookup-changed t e k in h.derived t c before ∙ ap ok same;
    named = λ x t k.
        let (c, there, out) = h.named x t k in
        elim (Bool-cases (text_eq subject t)) [
          | inl same ↦ (
            changed,
            ground (arith, lookup-insert subject t changed ds, same),
            ground (arith, found, there, (text_eq_iff subject t).0 same, out),
          )
          | inr other ↦ (c, ground (arith, lookup-insert subject t changed ds, other, there), out)
        ];
    owned = λ t e k.
        let (c, before, same) = lookup-changed t e k in
        subst (λ o. lookup o outs ≡ some t) same (h.owned t c before);
    hooked = λ member t. h.hooked member t ∙ sym (has_member-changed t member);
  }

pub IsIndexed-Receives : (env : Environment) → Receives env IsIndexed
unfolding set_input
IsIndexed-Receives env = record {
  keeps = IsIndexed-Keeps env;
  properties = λ ps s h. h;
  inputs = λ subject d v s found (h, a). (
    Indexed-changed subject d v s.definitions s.by_output s.parents found h,
    λ x p. a x (
        Leads-mono _ _ (members_in-changed subject d v s.definitions s.by_output s.parents found)
          p),
  );
  watching = λ globals configs states_watch inputs running stopped s h. h;
}

-- What is left after removeDefinitionLocked: the maps fit, there is no new cycle, and the subject has no
-- definition.
pub record Removed (subject : Text) (s : Service) : Type 0 where
  pub indexed : IsIndexed s
  pub gone : lookup subject s.definitions ≡ none

remove_found-Removed :
    (subject : Text) (o : Option Definition) (s : Service)
    → lookup subject s.definitions ≡ o
    → IsIndexed s
    → Removed subject (remove_found subject o s)
unfolding remove_found unhook_parents
remove_found-Removed subject none s e h = record { indexed = h; gone = e }
remove_found-Removed subject (some d) s e (h, a) = record {
  indexed = (
    Indexed-remove s.definitions s.by_output s.parents subject d h e,
    Acyclic-remove s.definitions s.by_output s.parents subject d h e a,
  );
  gone = ground (arith, lookup-remove subject subject s.definitions, text_eq_refl subject);
}

pub remove_definition-Removed :
    (subject : Text) (s : Service) → IsIndexed s → Removed subject (remove_definition subject s)
unfolding remove_definition
remove_definition-Removed subject s h =
    remove_found-Removed subject (lookup subject s.definitions) s refl h

-- The definition of a subject that has one is removed.
remove_definition-found :
    (subject : Text) (d : Definition) (s : Service)
    → lookup subject s.definitions ≡ some d
    → ((remove_definition subject s).definitions ≡ remove subject s.definitions)
      × ((remove_definition subject s).by_output ≡ remove d.output s.by_output)
      × ((remove_definition subject s).parents
          ≡ unhook_all subject (summary_members d.config) s.parents)
unfolding remove_definition remove_found unhook_parents
remove_definition-found subject d s found = (rw found, rw found, rw found)

module _ (env : Environment) where
  watch_state_in-Framed :
      (subject : Text) (names : Option (List Text)) (s : Service)
      → Framed s (watch_state_in env subject names s)
  unfolding watch_state_in
  watch_state_in-Framed subject none s = Framed-refl s
  watch_state_in-Framed subject (some names) s = record {
    properties = refl;
    definitions = refl;
    by_output = refl;
    parents = refl;
  }

  pub watch_state-Framed : (subject : Text) (s : Service) → Framed s (watch_state env subject s)
  unfolding watch_state
  watch_state-Framed subject s = watch_state_in-Framed subject s.states_watch s

  pub drop-IsIndexed :
      (output : Text) (s : Service) → IsIndexed s → IsIndexed (drop_output env output s)
  drop-IsIndexed output s h = drop_output-keeps env IsIndexed (IsIndexed-Receives env) output s h

  -- A service that holds a new definition, before its members are hooked to it.
  pub record Stored (subject : Text) (d : Definition) (before s : Service) : Type 0 where
    pub definitions : s.definitions ≡ insert subject d before.definitions
    pub by_output : s.by_output ≡ insert d.output subject before.by_output
    pub parents : s.parents ≡ before.parents

  module _ (subject : Text) (d : Definition) (before : Service) (h : IsIndexed before)
      (new : lookup subject before.definitions ≡ none)
      (out : output_subject subject ≡ ok d.output) where
    pub hooked-Indexed :
        (s : Service)
        → Stored subject d before s
        → Indexed s.definitions s.by_output (hook_all subject (summary_members d.config) s.parents)
    hooked-Indexed s st =
        rw (st.definitions, st.by_output, st.parents)
          (Indexed-insert before.definitions before.by_output before.parents subject d h.0 new out)

    -- After a store and a removal there is no cycle.
    pub undone :
        (s : Service)
        → s.definitions ≡ insert subject d before.definitions
        → s.by_output ≡ insert d.output subject before.by_output
        → Indexed s.definitions s.by_output s.parents
        → IsIndexed (remove_definition subject s)
    undone s e f k =
        let found : lookup subject s.definitions ≡ some d =
          rw (e, lookup-insert) (ground (arith, text_eq_refl subject)) in
        let (ds, outs, ps) = remove_definition-found subject d s found in
        (
          rw (ds, outs, ps) (Indexed-remove s.definitions s.by_output s.parents subject d k found),
          rw (ds, outs, e, f)
              (Acyclic-undo before.definitions before.by_output before.parents subject d h.0 new out
                h.1),
        )

    pub add_summary-IsIndexed :
        (s : Service) → Stored subject d before s → IsIndexed (add_summary env subject d s)
    unfolding add_summary hook_parents
    add_summary-IsIndexed s st =
        let hooked = hook_parents subject d s in
        let indexed : Indexed hooked.definitions hooked.by_output hooked.parents =
          hooked-Indexed s st in
        if_cases IsIndexed (summary_cycle d.output hooked) _ _
          (λ found.
            drop-IsIndexed d.output (remove_definition subject hooked)
              (undone hooked st.definitions st.by_output indexed))
          (λ clear.
            let none_found : HasCycle (members_of hooked) d.output → ⊥ =
              λ c. ground (arith, clear, (summary_cycle_iff d.output hooked).1 c) in
            let acyclic : Acyclic s.definitions s.by_output =
              rw (st.definitions, st.by_output)
                (Acyclic-insert before.definitions before.by_output before.parents subject d h.0 new
                  out h.1 (rw (st.definitions, st.by_output) at none_found)) in
            evaluate_ancestors-keeps env IsIndexed (IsIndexed-Keeps env) d.output _ (
              evaluate_definition-keeps env IsIndexed (IsIndexed-Keeps env) subject _ (
                watch_members-keeps env IsIndexed (IsIndexed-Receives env)
                  (summary_members d.config) hooked (indexed, acyclic))))
