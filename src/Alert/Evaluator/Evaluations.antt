-- ===== src/Alert/Evaluator/Evaluations.antt =====
-- What every evaluation of alert/evaluator.go satisfies, as ApplyEvaluation needs it.
use go_scada.Base.{
  Text, Bool, true, false, ◌||◌, ◌≡◌, List, [], ◌∷◌, Option, none, some, ok, arith, All, filter,
  Dict, mem_text, mem_text-middle, is_empty, >>-eq_ok, wrap-eq_ok, refl, has_suffix, Bool-cases,
  inl, inr, fail_if, wrap,
}
use go_scada.Alert.Model.{SummaryConfig, State, Evaluation, no_presentation, alert_suffix}
use go_scada.Alert.Protocol.{
  validate_summary, member_invalid, members_required, validate_subject, check_members, no_members,
}
use go_scada.Alert.Validation.{
  validate_flags, validate_state, validate_presentation, validate_members, check_state_members,
}
use go_scada.Alert.Evaluator.{evaluate_summary}
use go_scada.Alert.Evaluator.Dominance.Leader.{Leads, shown_at}
use go_scada.Alert.Evaluator.Lifecycle.{IsEvaluation}
use go_scada.Alert.Evaluator.Dominance.{presentation_from, HasValidState, evaluate_summary-dominant}

-- The texts of `small` are among those of `large`.
abbrev Within : List Text → List Text → Type 0
Within small large = (m : Text) → mem_text m large ≡ false → mem_text m small ≡ false

Within-both :
    (small large : List Text) (x : Text) → Within small large → Within (x ∷ small) (x ∷ large)
unfolding mem_text
Within-both small large x h m k = ground (arith, h m)

Within-right : (small large : List Text) (x : Text) → Within small large → Within small (x ∷ large)
unfolding mem_text
Within-right small large x h m k = ground (arith, h m)

checked_member :
    (large : List Text) (m : Text) (ms : List Text)
    → check_members large (m ∷ ms) ≡ ok tt
    → (validate_subject m ≡ ok tt)
      × (has_suffix m alert_suffix ≡ true)
      × (mem_text m large ≡ false)
      × (check_members (m ∷ large) ms ≡ ok tt)
unfolding check_members
checked_member large m ms h =
    let (subject, rest) = >>-eq_ok (wrap (member_invalid m) (validate_subject m)) _ h in
    (
      wrap-eq_ok (member_invalid m) (validate_subject m) subject,
      ground (arith, rest),
      ground (arith, rest),
      ground (arith, rest),
    )

-- What is checked of the members of a configuration holds of the shown ones in a state.
check_state_members-filter :
    (p : Text → Bool) (small large members : List Text)
    → Within small large
    → check_members large members ≡ ok tt
    → check_state_members small (filter p members) ≡ ok tt
unfolding check_state_members
check_state_members-filter p small large [] within h = refl
check_state_members-filter p small large (m ∷ ms) within h =
    let (valid, suffix, fresh, rest) = checked_member large m ms h in
    elim (Bool-cases (p m)) [
      | inl on ↦
          rw (on, valid, suffix, within m fresh)
            (check_state_members-filter p (m ∷ small) (m ∷ large) ms
              (Within-both small large m within) rest)
      | inr off ↦ rw off (
          check_state_members-filter p small (m ∷ large) ms (Within-right small large m within)
            rest)
    ]

no_presentation-valid : validate_presentation no_presentation ≡ ok tt
unfolding validate_presentation
no_presentation-valid = refl

presentation-valid :
    (s : State) → validate_state s ≡ ok tt → validate_presentation s.presentation ≡ ok tt
unfolding validate_state
presentation-valid s v =
    let (_, rest) = >>-eq_ok (validate_flags s) _ v in
    (>>-eq_ok (validate_presentation s.presentation) _ rest).0

leader-valid :
    (states : Dict State) (shown : List Text) (subject : Text) (o : Option State)
    → Leads states shown subject o
    → validate_presentation (presentation_from o) ≡ ok tt
leader-valid states shown subject none leads = no_presentation-valid
leader-valid states shown subject (some d) (_, _, _, _, valid, _, _) = presentation-valid d valid

leader-member :
    (states : Dict State) (shown : List Text) (subject : Text) (o : Option State)
    → Leads states shown subject o
    → (is_empty subject || mem_text subject shown) ≡ true
leader-member states shown subject none (_, blank) = rw blank refl
leader-member states shown subject (some d) (before, after, split, _, _, _, _) =
    let member : mem_text subject shown ≡ true = rw split (mem_text-middle subject before after) in
    ground (arith, member)

-- The evaluation of a summary is one that ApplyEvaluation accepts.
pub evaluate_summary-IsEvaluation :
    (config : SummaryConfig) (states : Dict State)
    → validate_summary config ≡ ok tt
    → All (HasValidState states) config.members
    → (e : Evaluation) × (evaluate_summary config states ≡ ok e) × IsEvaluation e
unfolding validate_summary validate_members
evaluate_summary-IsEvaluation config states v h =
    let (e, same, is) = evaluate_summary-dominant config states v h in
    let (_, checked) = >>-eq_ok (fail_if (no_members config.members) members_required) _ v in
    let listed : check_state_members [] e.members ≡ ok tt =
      rw is.members
        (check_state_members-filter (shown_at states) [] [] config.members (λ m k. k) checked) in
    (
      e,
      same,
      record {
        presentation =
            rw is.presentation (leader-valid states e.members e.dominant is.leader is.leads);
        members =
            rw listed
              (ground (arith, leader-member states e.members e.dominant is.leader is.leads));
        quiet = λ a p. ground (arith, is.acknowledged, p);
      },
    )
