-- ===== src/Alert/Service/Keeping.antt =====
-- alert/service.go: what the evaluation of a definition keeps, once its parts keep it.
pub mod Walks
pub mod Receiving
pub mod Running
pub mod Frame
use go_scada.Base.{
  ℕ, zero, suc, Text, Bool, true, false, not, ◌&&◌, ◌||◌, ◌≡◌, refl, List, [], ◌∷◌, ◌++◌, Option,
  none, some, Result, ok, err, Check, All, Dict, lookup, insert, remove, if◌then◌else◌, if_cases,
  text_eq, Bool-cases, Option-cases, arith, inl, inr, >>-eq_ok, >>=-eq_ok, is_some, mem_text, subst,
  length, ok-injective, sym, ap, ◌↔◌,
}
use go_scada.Value.{Value}
use go_scada.Alert.Model.{State, Evaluation, Time}
use go_scada.Alert.Protocol.{AlertError}
use go_scada.Alert.Validation.{validate_state, marshal_state, parse_state, parse_state_unchecked}
use go_scada.Alert.Evaluator.{apply_evaluation, acknowledge, check_previous}
use go_scada.Alert.Evaluator.Lifecycle.{apply_evaluation-valid, acknowledge_iff}
use go_scada.Alert.Service.{
  Environment, Definition, Service, tick, definition_for_output, remove_definition, remove_found,
  unhook_parents, hook_parents,
}
use go_scada.Alert.Service.Evaluating.{
  Outcome, skipped, evaluated, outcome, is_dirty, same_state, send, store_encoded,
  store_and_publish, store_applied, apply, make_inactive, apply_outcome, evaluate_found,
  evaluate_definition, republish_encoded, republish_found, republish_canonical, store_acknowledged,
  acknowledge_found, acknowledge_one, inactive_evaluation,
}

-- What every property has that the parts of an evaluation keep.
pub record Keeps (env : Environment) (P : Service → Type 0) : Type 0 where
  pub sends : (subject encoded : Text) (s : Service) → P s → P (send env subject encoded s)
  pub ticks : (s : Service) → P s → P (tick s)
  pub stores :
      (subject : Text) (state : State) (s : Service)
      → validate_state state ≡ ok tt
      → P s
      → P (record s { states = insert subject state s.states })

module _ (env : Environment) (P : Service → Type 0) (keeps : Keeps env P) where
  store_encoded-keeps :
      (subject : Text) (state : State) (r : Result AlertError Text) (s : Service)
      → validate_state state ≡ ok tt
      → P s
      → P (store_encoded env subject state r s)
  unfolding store_encoded
  store_encoded-keeps subject state (err e) s v h = h
  store_encoded-keeps subject state (ok encoded) s v h =
      keeps.sends subject encoded _ (keeps.stores subject state s v h)

  pub store_and_publish-keeps :
      (subject : Text) (state : State) (s : Service)
      → validate_state state ≡ ok tt
      → P s
      → P (store_and_publish env subject state s)
  unfolding store_and_publish
  store_and_publish-keeps subject state s v h =
      if_cases P (same_state (lookup subject s.states) state && not (is_dirty subject s)) _ _
        (λ _. h)
        (λ _. store_encoded-keeps subject state (marshal_state env.encode_state state) s v h)

  store_applied-keeps :
      (output : Text) (r : Result AlertError State) (s : Service)
      → ((state : State) → r ≡ ok state → validate_state state ≡ ok tt)
      → P s
      → P (store_applied env output r s)
  unfolding store_applied
  store_applied-keeps output (err e) s v h = h
  store_applied-keeps output (ok next) s v h = store_and_publish-keeps output next s (v next refl) h

  pub apply-keeps : (output : Text) (e : Evaluation) (s : Service) → P s → P (apply env output e s)
  unfolding apply
  apply-keeps output e s h =
      store_applied-keeps output _ (tick s)
        (apply_evaluation-valid (lookup output s.states) e (env.now s.calls) (env.new_id s.calls))
        (keeps.ticks s h)

  pub make_inactive-keeps : (output : Text) (s : Service) → P s → P (make_inactive env output s)
  unfolding make_inactive
  make_inactive-keeps output s h = apply-keeps output inactive_evaluation s h

  apply_outcome-keeps :
      (output : Text) (o : Outcome) (s : Service) → P s → P (apply_outcome env output o s)
  unfolding apply_outcome
  apply_outcome-keeps output skipped s h = h
  apply_outcome-keeps output (evaluated (err e)) s h = make_inactive-keeps output s h
  apply_outcome-keeps output (evaluated (ok e)) s h = apply-keeps output e s h

  evaluate_found-keeps : (d : Option Definition) (s : Service) → P s → P (evaluate_found env d s)
  unfolding evaluate_found
  evaluate_found-keeps none s h = h
  evaluate_found-keeps (some d) s h =
      apply_outcome-keeps d.output (outcome env.parse_float d s.properties s.states) s h

  pub evaluate_definition-keeps :
      (subject : Text) (s : Service) → P s → P (evaluate_definition env subject s)
  unfolding evaluate_definition
  evaluate_definition-keeps subject s h = evaluate_found-keeps (lookup subject s.definitions) s h

  republish_encoded-keeps :
      (subject : Text) (r : Result AlertError Text) (s : Service)
      → P s
      → P (republish_encoded env subject r s)
  unfolding republish_encoded
  republish_encoded-keeps subject (err e) s h = h
  republish_encoded-keeps subject (ok encoded) s h = keeps.sends subject encoded s h

  republish_found-keeps :
      (subject : Text) (o : Option State) (s : Service) → P s → P (republish_found env subject o s)
  unfolding republish_found
  republish_found-keeps subject none s h = h
  republish_found-keeps subject (some state) s h =
      republish_encoded-keeps subject (marshal_state env.encode_state state) s h

  pub republish_canonical-keeps :
      (subject : Text) (s : Service) → P s → P (republish_canonical env subject s)
  unfolding republish_canonical
  republish_canonical-keeps subject s h =
      republish_found-keeps subject (lookup subject s.states) s h

  store_acknowledged-keeps :
      (subject : Text) (r : Result AlertError State) (s : Service)
      → ((state : State) → r ≡ ok state → validate_state state ≡ ok tt)
      → P s
      → P (store_acknowledged env subject r s)
  unfolding store_acknowledged
  store_acknowledged-keeps subject (err e) s v h = h
  store_acknowledged-keeps subject (ok next) s v h =
      store_and_publish-keeps subject next s (v next refl) h

  acknowledge_found-keeps :
      (subject : Text) (o : Option State) (s : Service)
      → P s
      → P (acknowledge_found env subject o s)
  unfolding acknowledge_found
  acknowledge_found-keeps subject none s h = h
  acknowledge_found-keeps subject (some state) s h =
      if_cases P state.pending _ _
        (λ _.
          store_acknowledged-keeps subject _ (tick s)
            (λ next e.
              let (_, _, _, _, _, valid) =
                (acknowledge_iff state state.episode_id (env.now s.calls) next).0 e in
              valid)
            (keeps.ticks s h))
        (λ _. h)

  pub acknowledge_one-keeps :
      (subject : Text) (s : Service) → P s → P (acknowledge_one env subject s)
  unfolding acknowledge_one
  acknowledge_one-keeps subject s h = acknowledge_found-keeps subject (lookup subject s.states) s h
