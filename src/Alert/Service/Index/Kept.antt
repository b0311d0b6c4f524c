-- ===== src/Alert/Service/Index/Kept.antt =====
-- alert/service.go: the maps fit each other, and no summary contains itself, whatever arrives.
use go_scada.Base.{
  Text, false, ◌≡◌, refl, ◌∙◌, List, [], ◌∷◌, Option, none, some, Result, ok, err, lookup, if_cases,
  mem_text, subst, ap, >>=-eq_ok, >>-eq_ok, ok-injective,
}
use go_scada.Value.{Value}
use go_scada.Alert.Model.{Config}
use go_scada.Alert.Protocol.{AlertError, output_subject, input_subject}
use go_scada.Alert.Validation.{parse_config, validate_for_subject}
use go_scada.Alert.Service.{
  Environment, Definition, Service, new_service, tick, is_summary, summary_members, members_if,
  hook_all, remove_definition,
}
use go_scada.Alert.Service.Cycles.{members_in}
use go_scada.Alert.Service.Cycles.Search.{Leads, edge, longer}
use go_scada.Alert.Service.Handlers.{
  Accepted, watch_state, check_config, reject_config, first_input, add_watched, store_definition,
  add_definition, reconcile_checked, reconcile_config,
}
use go_scada.Alert.Service.Keeping.Receiving.{accept_input-keeps}
use go_scada.Alert.Service.Keeping.Running.{Handles, Reachable-keeps}
use go_scada.Alert.Service.Events.{Reachable}
use go_scada.Alert.Service.Index.{Indexed, IsIndexed}
use go_scada.Alert.Service.Index.Adding.{Acyclic-plain}
use go_scada.Alert.Service.Index.Configured.{
  IsIndexed-Receives, Removed, remove_definition-Removed, watch_state-Framed, drop-IsIndexed,
  Stored, hooked-Indexed, undone, add_summary-IsIndexed,
}

-- Only a summary has members.
plain-members : (config : Config) → is_summary config.kind ≡ false → summary_members config ≡ []
unfolding summary_members members_if
plain-members config e = rw e

module _ (env : Environment) (subject : Text) where
  first_input-IsIndexed :
      (d : Definition) (o : Option Value) (s : Service)
      → IsIndexed s
      → IsIndexed (first_input env subject d o s)
  unfolding first_input
  first_input-IsIndexed d none s h = h
  first_input-IsIndexed d (some v) s h =
      accept_input-keeps env IsIndexed (IsIndexed-Receives env) subject d.identity v s h

  module _ (d : Definition) (before : Service) (h : IsIndexed before)
      (new : lookup subject before.definitions ≡ none)
      (out : output_subject subject ≡ ok d.output) where
    -- A definition without members needs no hooks.
    plain-IsIndexed :
        (s : Service) → Stored env subject d before s → summary_members d.config ≡ [] → IsIndexed s
    unfolding hook_all
    plain-IsIndexed s st plain = (
      subst (λ ms. Indexed s.definitions s.by_output (hook_all subject ms s.parents)) plain
          (hooked-Indexed env subject d before h new out s st),
      rw (st.definitions, st.by_output)
          (Acyclic-plain before.definitions before.by_output before.parents subject d h.0 new out
            h.1 plain),
    )

    add_watched-IsIndexed :
        (o : Option (List Text)) (s : Service)
        → Stored env subject d before s
        → summary_members d.config ≡ []
        → IsIndexed (add_watched env subject d o s)
    unfolding add_watched
    add_watched-IsIndexed none s st plain = plain-IsIndexed s st plain
    add_watched-IsIndexed (some names) s st plain =
        let watched = record (tick s) { inputs = some (d.source ∷ names) } in
        let kept = plain-IsIndexed s st plain in
        if_cases IsIndexed (env.watches s.calls d.source) _ _
          (λ _. first_input-IsIndexed d (env.get_any watched.calls d.source) (tick watched) kept)
          (λ _.
            drop-IsIndexed env d.output (remove_definition subject (tick s))
              (undone env subject d before h new out (tick s) st.definitions st.by_output kept.0))

    store_definition-Stored :
        Stored env subject d before
          (watch_state env d.output (store_definition env subject d before))
    unfolding store_definition
    store_definition-Stored =
        let f = watch_state-Framed env d.output (store_definition env subject d before) in
        record { definitions = f.definitions; by_output = f.by_output; parents = f.parents }

  add_definition-IsIndexed :
      (raw : Text) (a : Accepted) (s : Service)
      → Removed subject s
      → output_subject subject ≡ ok a.output
      → IsIndexed (add_definition env subject raw a s)
  unfolding add_definition
  add_definition-IsIndexed raw a s r out =
      let d : Definition = record {
        identity = s.allocated;
        raw = raw;
        config = a.config;
        output = a.output;
        source = a.source;
        input = none;
      } in
      let stored = watch_state env a.output (store_definition env subject d s) in
      let st = store_definition-Stored d s r.indexed r.gone out in
      if_cases IsIndexed (is_summary a.config.kind) _ _
        (λ _. add_summary-IsIndexed env subject d s r.indexed r.gone out stored st)
        (λ plain.
          add_watched-IsIndexed d s r.indexed r.gone out stored.inputs stored st
            (plain-members a.config plain))

  -- The output of an accepted configuration is that of its subject.
  check_config-output :
      (raw : Text) (a : Accepted)
      → check_config env subject raw ≡ ok a
      → output_subject subject ≡ ok a.output
  unfolding check_config
  check_config-output raw a e =
      let (config, parsed, e1) =
        >>=-eq_ok (parse_config env.parse_float env.decode_config raw) _ e in
      let (valid, e2) = >>-eq_ok (validate_for_subject env.parse_float config subject) _ e1 in
      let (output, is_output, e3) = >>=-eq_ok (output_subject subject) _ e2 in
      let (source, is_source, e4) = >>=-eq_ok (input_subject subject) _ e3 in
      is_output ∙ ap (λ (b : Accepted). ok b.output) (ok-injective e4)

  reject_config-IsIndexed :
      (r : Result AlertError Text) (s : Service) → IsIndexed s → IsIndexed (reject_config env r s)
  unfolding reject_config
  reject_config-IsIndexed (err e) s h = h
  reject_config-IsIndexed (ok output) s h = drop-IsIndexed env output s h

  reconcile_checked-IsIndexed :
      (raw : Text) (r : Result AlertError Accepted) (s : Service)
      → Removed subject s
      → ((a : Accepted) → r ≡ ok a → output_subject subject ≡ ok a.output)
      → IsIndexed (reconcile_checked env subject raw r s)
  unfolding reconcile_checked
  reconcile_checked-IsIndexed raw (err e) s r out =
      reject_config-IsIndexed (output_subject subject) s r.indexed
  reconcile_checked-IsIndexed raw (ok a) s r out =
      if_cases IsIndexed a.config.enabled _ _ (λ _. add_definition-IsIndexed raw a s r (out a refl))
        (λ _. drop-IsIndexed env a.output s r.indexed)

  reconcile_config-IsIndexed :
      (raw : Text) (s : Service) → IsIndexed s → IsIndexed (reconcile_config env subject raw s)
  unfolding reconcile_config
  reconcile_config-IsIndexed raw s h =
      reconcile_checked-IsIndexed raw (check_config env subject raw) (remove_definition subject s)
        (remove_definition-Removed subject s h) (check_config-output raw)

IsIndexed-Handles : (env : Environment) → Handles env IsIndexed
IsIndexed-Handles env = record {
  receives = IsIndexed-Receives env;
  configures = reconcile_config-IsIndexed env;
}

new-IsIndexed : IsIndexed new_service
unfolding lookup members_in mem_text
new-IsIndexed = (
  record {
    derived = λ t d e. absurd cc;
    named = λ x t e. absurd cc;
    owned = λ t d e. absurd cc;
    hooked = λ member t. refl;
  },
  λ x p. of p,
)
  where
    of : {x y : Text} → Leads (members_in [] []) x y → ⊥
    of (edge e) = cc
    of (longer p e) = cc

-- From a start of the service on, and after any callbacks in any order with whatever contents: the output
-- of each definition is that of its subject, `byOutput` has exactly the outputs of the definitions with
-- their subjects, the parents of a member are exactly the summaries that have it, and no summary contains
-- itself, directly or through other summaries.
pub Reachable-IsIndexed : (env : Environment) (s : Service) → Reachable env s → IsIndexed s
Reachable-IsIndexed env s r =
    Reachable-keeps env IsIndexed (IsIndexed-Handles env) new-IsIndexed s r
