-- ===== src/Alert/Evaluator/Accepted.antt =====
-- ApplyEvaluation after any of the evaluators of alert/evaluator.go.
use go_scada.Base.{
  ℕ, Text, Bool, false, ◌≡◌, List, [], ◌∷◌, Option, none, some, ok, wrap, All, refl, sym, ◌∙◌,
  subst, >>-eq_ok, >>=-eq_ok, wrap-eq_ok, Dict, lookup, is_empty, ok-injective,
}
use go_scada.Value.{Value}
use go_scada.Alert.Model.{
  BinaryConfig, ValueConfig, SummaryConfig, Properties, State, Evaluation, Time,
}
use go_scada.Alert.Protocol.{validate_summary, member_invalid}
use go_scada.Alert.Validation.{validate_state}
use go_scada.Alert.Evaluator.{
  Summing, sum_member, sum_members, evaluate_binary, evaluate_value, evaluate_summary,
  no_members_yet, check_previous, apply_evaluation,
}
use go_scada.Alert.Evaluator.Lifecycle.{IsEvaluation, Follows, apply_evaluation_total}
use go_scada.Alert.Evaluator.Dominance.{HasValidState}
use go_scada.Alert.Evaluator.Evaluations.{evaluate_summary-IsEvaluation}
use go_scada.Alert.Evaluator.Plain.{evaluate_binary-IsEvaluation, evaluate_value-IsEvaluation}

sum_members-HasValidState :
    (ms : List Text) (states : Dict State) (r r' : Summing)
    → sum_members ms states r ≡ ok r'
    → All (HasValidState states) ms
unfolding sum_members sum_member
sum_members-HasValidState [] states r r' h = tt
sum_members-HasValidState (m ∷ ms) states r r' h =
    let (r1, one, rest) = >>=-eq_ok (sum_member m (lookup m states) r) _ h in
    (of_state (lookup m states) refl r1 one, sum_members-HasValidState ms states r1 r' rest)
  where
    of_state :
        (o : Option State)
        → lookup m states ≡ o
        → (r1 : Summing) → sum_member m o r ≡ ok r1
        → HasValidState states m
    of_state none e r1 k = absurd cc
    of_state (some s) e r1 k = (
      s,
      e,
      wrap-eq_ok (member_invalid m) _ (>>-eq_ok (wrap (member_invalid m) (validate_state s)) _ k).0,
    )

summary-IsEvaluation :
    (config : SummaryConfig) (states : Dict State) (e : Evaluation)
    → evaluate_summary config states ≡ ok e
    → IsEvaluation e
unfolding evaluate_summary
summary-IsEvaluation config states e h =
    let (valid, rest) = >>-eq_ok (validate_summary config) _ h in
    let (r, summed, _) = >>=-eq_ok (sum_members config.members states no_members_yet) _ rest in
    let (e', same, is) =
      evaluate_summary-IsEvaluation config states valid
        (sum_members-HasValidState config.members states no_members_yet r summed) in
    subst IsEvaluation (ok-injective (sym same ∙ h)) is

-- The evaluation is a result of one of the evaluators.
pub data Evaluated (parse_float : Text → Option ℕ) (e : Evaluation) : Type 0 where
  by_binary :
      (config : BinaryConfig) (value : Bool) (properties : Dict Properties)
      → evaluate_binary config value properties ≡ ok e
      → Evaluated parse_float e
  by_value :
      (config : ValueConfig) (v : Value) (properties : Dict Properties)
      → evaluate_value parse_float config v properties ≡ ok e
      → Evaluated parse_float e
  by_summary :
      (config : SummaryConfig) (states : Dict State)
      → evaluate_summary config states ≡ ok e
      → Evaluated parse_float e

pub Evaluated-IsEvaluation :
    (parse_float : Text → Option ℕ) (e : Evaluation) → Evaluated parse_float e → IsEvaluation e
Evaluated-IsEvaluation parse_float e (by_binary config value properties h) =
    evaluate_binary-IsEvaluation config value properties e h
Evaluated-IsEvaluation parse_float e (by_value config v properties h) =
    evaluate_value-IsEvaluation parse_float config v properties e h
Evaluated-IsEvaluation parse_float e (by_summary config states h) =
    summary-IsEvaluation config states e h

-- Whatever EvaluateBinary, EvaluateValue or EvaluateSummary returns, ApplyEvaluation never fails on it,
-- given no previous state or a valid one and a nonempty episode ID. The new state is valid, and it
-- follows from the previous one by the rules of the lifecycle: a new episode takes the ID and the time, a
-- running one keeps them, an ended one gets the time it went, and what was pending stays pending.
pub apply_evaluation-Evaluated :
    (parse_float : Text → Option ℕ) (previous : Option State) (e : Evaluation) (now : Time)
    (episode_id : Text)
    → Evaluated parse_float e
    → check_previous previous ≡ ok tt
    → is_empty episode_id ≡ false
    → (s : State) × (apply_evaluation previous e now episode_id ≡ ok s)
      × (validate_state s ≡ ok tt)
      × Follows previous e now episode_id s
apply_evaluation-Evaluated parse_float previous e now episode_id by valid id =
    apply_evaluation_total previous e now episode_id valid (Evaluated-IsEvaluation parse_float e by)
      id
