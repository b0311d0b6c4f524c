-- ===== src/Alert/Service/Evaluating.antt =====
-- alert/service.go: the evaluation of one definition, and what it stores and publishes.
use go_scada.Base.{
  ℕ, Text, Bool, true, false, not, ◌&&◌, List, [], ◌∷◌, Option, none, some, Result, ok, err, Dict,
  lookup, insert, remove, if◌then◌else◌,
}
use go_scada.Value.{Value}
use go_scada.Alert.Model.{
  AlertType, binary, value, summary, other, Properties, BinaryConfig, ValueConfig, SummaryConfig,
  Config, State, Evaluation, no_presentation,
}
use go_scada.Alert.Protocol.{AlertError, no_state}
use go_scada.Alert.Validation.{marshal_state}
use go_scada.Alert.Evaluator.{
  evaluate_binary, evaluate_value, evaluate_summary, apply_evaluation, acknowledge,
}
use go_scada.Alert.Service.{Environment, Definition, Service, tick}
use go_scada.Alert.Service.Comparing.{state_eq}

-- The variables `evaluation` and `err`, or the return before they are set.
pub data Outcome : Type 0 where
  skipped : Outcome
  evaluated : Result AlertError Evaluation → Outcome

-- Evaluation{}
abbrev pub zero_evaluation : Evaluation
zero_evaluation = record {
  active = false;
  pending = false;
  acknowledged = false;
  presentation = no_presentation;
  text = [];
  dominant = [];
  members = [];
}

-- Evaluation{Acknowledged: true}
abbrev pub inactive_evaluation : Evaluation
inactive_evaluation = record zero_evaluation { acknowledged = true }

-- The states of the members, up to the first that has none.
unfoldable pub collect_members :
    List Text → Dict State → Dict State → Result AlertError (Dict State)
collect_members [] states found = ok found
collect_members (member ∷ members) states found = elim (lookup member states) [
  | none ↦ err (no_state member)
  | some state ↦ collect_members members states (insert member state found)
]

unfoldable pub evaluate_members :
    SummaryConfig → Result AlertError (Dict State) → Result AlertError Evaluation
evaluate_members config (err e) = err e
evaluate_members config (ok found) = evaluate_summary config found

-- The cases of the switch. A variant that is nil would be dereferenced; ParseConfig rejects such a
-- configuration, and here the evaluation is skipped.
unfoldable pub binary_outcome : Option BinaryConfig → Option Value → Dict Properties → Outcome
binary_outcome (some config) (some (Value.bool b)) properties =
    evaluated (evaluate_binary config b properties)
binary_outcome _ _ properties = skipped

unfoldable pub value_outcome :
    (Text → Option ℕ) → Option ValueConfig → Option Value → Dict Properties → Outcome
value_outcome parse_float (some config) (some v) properties =
    evaluated (evaluate_value parse_float config v properties)
value_outcome parse_float _ _ properties = skipped

unfoldable pub summary_outcome : Option SummaryConfig → Dict State → Outcome
unfolding evaluate_members
summary_outcome none states = skipped
summary_outcome (some config) states =
    evaluated (evaluate_members config (collect_members config.members states []))

unfoldable pub kind_outcome :
    (Text → Option ℕ) → AlertType → Config → Option Value → Dict Properties → Dict State → Outcome
unfolding binary_outcome value_outcome summary_outcome
kind_outcome parse_float binary config input properties states =
    binary_outcome config.binary input properties
kind_outcome parse_float value config input properties states =
    value_outcome parse_float config.value input properties
kind_outcome parse_float summary config input properties states =
    summary_outcome config.summary states
kind_outcome parse_float (other name) config input properties states =
    evaluated (ok zero_evaluation)

-- Everything in evaluateDefinitionLocked up to the test of the error.
unfoldable pub outcome : (Text → Option ℕ) → Definition → Dict Properties → Dict State → Outcome
unfolding kind_outcome
outcome parse_float d properties states =
    kind_outcome parse_float d.config.kind d.config d.input properties states

-- `service.dirty[subject]`
abbrev pub is_dirty : Text → Service → Bool
is_dirty subject s = elim (lookup subject s.dirty) [ none ↦ false | some flag ↦ flag ]

abbrev pub same_state : Option State → State → Bool
same_state none state = false
same_state (some previous) state = state_eq previous state

module _ (env : Environment) where
  -- PublishString and what depends on its error.
  unfoldable pub send : Text → Text → Service → Service
  send subject encoded s =
      if env.publishes s.calls subject encoded
      then record (tick s) {
        published = insert subject encoded s.published;
        dirty = remove subject s.dirty;
        sent = (subject, encoded) ∷ s.sent;
      }
      else record (tick s) {
        published = remove subject s.published;
        dirty = insert subject true s.dirty;
      }

  unfoldable pub store_encoded : Text → State → Result AlertError Text → Service → Service
  store_encoded subject state (err e) s = s
  store_encoded subject state (ok encoded) s =
      send subject encoded (record s { states = insert subject state s.states })

  unfoldable pub store_and_publish : Text → State → Service → Service
  unfolding store_encoded
  store_and_publish subject state s =
      if same_state (lookup subject s.states) state && not (is_dirty subject s)
      then s
      else store_encoded subject state (marshal_state env.encode_state state) s

  unfoldable pub store_applied : Text → Result AlertError State → Service → Service
  store_applied output (err e) s = s
  store_applied output (ok next) s = store_and_publish output next s

  unfoldable pub apply : Text → Evaluation → Service → Service
  unfolding store_applied
  apply output e s =
      store_applied output
        (apply_evaluation (lookup output s.states) e (env.now s.calls) (env.new_id s.calls))
        (tick s)

  unfoldable pub make_inactive : Text → Service → Service
  make_inactive output s = apply output inactive_evaluation s

  unfoldable pub apply_outcome : Text → Outcome → Service → Service
  apply_outcome output skipped s = s
  apply_outcome output (evaluated (err e)) s = make_inactive output s
  apply_outcome output (evaluated (ok e)) s = apply output e s

  unfoldable pub evaluate_found : Option Definition → Service → Service
  unfolding apply_outcome
  evaluate_found none s = s
  evaluate_found (some d) s =
      apply_outcome d.output (outcome env.parse_float d s.properties s.states) s

  unfoldable pub evaluate_definition : Text → Service → Service
  unfolding evaluate_found
  evaluate_definition subject s = evaluate_found (lookup subject s.definitions) s

  unfoldable pub republish_encoded : Text → Result AlertError Text → Service → Service
  republish_encoded subject (err e) s = s
  republish_encoded subject (ok encoded) s = send subject encoded s

  unfoldable pub republish_found : Text → Option State → Service → Service
  unfolding republish_encoded
  republish_found subject none s = s
  republish_found subject (some state) s =
      republish_encoded subject (marshal_state env.encode_state state) s

  unfoldable pub republish_canonical : Text → Service → Service
  unfolding republish_found
  republish_canonical subject s = republish_found subject (lookup subject s.states) s

  unfoldable pub store_acknowledged : Text → Result AlertError State → Service → Service
  store_acknowledged subject (err e) s = s
  store_acknowledged subject (ok next) s = store_and_publish subject next s

  unfoldable pub acknowledge_found : Text → Option State → Service → Service
  unfolding store_acknowledged
  acknowledge_found subject none s = s
  acknowledge_found subject (some state) s =
      let after =
        store_acknowledged subject (acknowledge state state.episode_id (env.now s.calls))
          (tick s) in
      if state.pending then after else s

  unfoldable pub acknowledge_one : Text → Service → Service
  unfolding acknowledge_found
  acknowledge_one subject s = acknowledge_found subject (lookup subject s.states) s
