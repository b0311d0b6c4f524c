-- ===== src/Alert/Evaluator/Lifecycle.antt =====
-- The lifecycle rules of ApplyEvaluation and Acknowledge in alert/evaluator.go.
use go_scada.Base.{
  Text, true, false, not, ◌||◌, ◌≡◌, Option, none, some, ok, arith, is_empty, ◌↔◌, >>-eq_ok,
  text_eq_iff, refl, sym, ◌&&◌, wrap-eq_ok, if◌then◌else◌, Bool, [], subst, >>=-eq_ok, ok-injective,
}
use go_scada.Alert.Model.{Time, State, Evaluation}
use go_scada.Alert.Validation.{
  validate_state, validate_flags, validate_presentation, validate_members,
}
use go_scada.Alert.Protocol.{previous_state}
use go_scada.Alert.Evaluator.{
  utc, was_active, carry, start_episode, continue_episode, end_episode, check_previous, advance,
  apply_evaluation, acknowledge,
}

-- What an evaluation of EvaluateBinary, EvaluateValue and EvaluateSummary satisfies.
pub record IsEvaluation (e : Evaluation) : Type 0 where
  pub presentation : validate_presentation e.presentation ≡ ok tt
  pub members : validate_members e.dominant e.members ≡ ok tt
  pub quiet :
      e.active ≡ false
      → e.pending ≡ false
      → (e.acknowledged || not e.presentation.requires_acknowledgement) ≡ true

start_episode-flags :
    (previous : Option State) (e : Evaluation) (now : Time) (episode_id : Text)
    → e.active ≡ true
    → is_empty episode_id ≡ false
    → validate_flags (start_episode (carry previous e) e (utc now) episode_id) ≡ ok tt
unfolding validate_flags start_episode carry
start_episode-flags previous e now episode_id h k = ground arith

continue_episode-flags :
    (previous : State) (e : Evaluation)
    → validate_state previous ≡ ok tt
    → e.active ≡ true
    → previous.active ≡ true
    → validate_flags (continue_episode (carry (some previous) e) e) ≡ ok tt
unfolding validate_state validate_flags continue_episode carry
continue_episode-flags previous e v h k = ground arith

end_episode-flags :
    (previous : Option State) (e : Evaluation) (now : Time)
    → check_previous previous ≡ ok tt
    → e.active ≡ false
    → IsEvaluation e
    → validate_flags (end_episode (was_active previous) (carry previous e) e (utc now)) ≡ ok tt
unfolding check_previous validate_state validate_flags end_episode carry
end_episode-flags none e now v h k = ground (arith, k.quiet h)
end_episode-flags (some previous) e now v h k = ground (arith, k.quiet h)

-- The state that the lifecycle rules give.
pub next_state : Option State → Evaluation → Time → Text → State
next_state previous e now episode_id =
    let s = carry previous e in
    if e.active && not (was_active previous)
    then start_episode s e (utc now) episode_id
    else if e.active
    then continue_episode s e
    else end_episode (was_active previous) s e (utc now)

advance-next_state :
    (previous : Option State) (e : Evaluation) (now : Time) (episode_id : Text)
    → is_empty episode_id ≡ false
    → advance previous e (utc now) episode_id ≡ ok (next_state previous e now episode_id)
unfolding advance next_state
advance-next_state previous e now episode_id h = ground arith

check_previous-valid :
    (previous : State) → check_previous (some previous) ≡ ok tt → validate_state previous ≡ ok tt
unfolding check_previous
check_previous-valid previous v = wrap-eq_ok previous_state (validate_state previous) v

was_active_flags :
    (previous : Option State) (e : Evaluation)
    → check_previous previous ≡ ok tt
    → e.active ≡ true
    → was_active previous ≡ true
    → validate_flags (continue_episode (carry previous e) e) ≡ ok tt
was_active_flags none e v on was = cc
was_active_flags (some previous) e v on was =
    continue_episode-flags previous e (check_previous-valid previous v) on was

lifecycle_cases :
    (P : State → Type 0) (active was : Bool) (x y z : State)
    → (active ≡ true → was ≡ false → P x)
    → (active ≡ true → was ≡ true → P y)
    → (active ≡ false → P z)
    → P (if active && not was then x else if active then y else z)
lifecycle_cases P true false x y z a b c = a refl refl
lifecycle_cases P true true x y z a b c = b refl refl
lifecycle_cases P false was x y z a b c = c refl

next_state-flags :
    (previous : Option State) (e : Evaluation) (now : Time) (episode_id : Text)
    → check_previous previous ≡ ok tt
    → IsEvaluation e
    → is_empty episode_id ≡ false
    → validate_flags (next_state previous e now episode_id) ≡ ok tt
unfolding next_state
next_state-flags previous e now episode_id v k id =
    lifecycle_cases (λ s. validate_flags s ≡ ok tt) e.active (was_active previous) _ _ _
      (λ on fresh. start_episode-flags previous e now episode_id on id)
      (λ on was. was_active_flags previous e v on was)
      (λ off. end_episode-flags previous e now v off k)

next_state-kept :
    (previous : Option State) (e : Evaluation) (now : Time) (episode_id : Text)
    → let s = next_state previous e now episode_id in
      (s.presentation ≡ e.presentation) × (s.dominant ≡ e.dominant) × (s.members ≡ e.members)
unfolding next_state carry start_episode continue_episode end_episode
next_state-kept previous e now episode_id = ground arith

next_state-validate_state :
    (previous : Option State) (e : Evaluation) (now : Time) (episode_id : Text)
    → check_previous previous ≡ ok tt
    → IsEvaluation e
    → is_empty episode_id ≡ false
    → validate_state (next_state previous e now episode_id) ≡ ok tt
unfolding validate_state
next_state-validate_state previous e now episode_id v k id =
    let (p, d, m) = next_state-kept previous e now episode_id in
    ground
      (arith, p, d, m, next_state-flags previous e now episode_id v k id, k.presentation, k.members)

apply_evaluation-next_state :
    (previous : Option State) (e : Evaluation) (now : Time) (episode_id : Text)
    → check_previous previous ≡ ok tt
    → IsEvaluation e
    → is_empty episode_id ≡ false
    → apply_evaluation previous e now episode_id ≡ ok (next_state previous e now episode_id)
unfolding apply_evaluation
apply_evaluation-next_state previous e now episode_id v k id = rw (
  v,
  advance-next_state previous e now episode_id id,
  next_state-validate_state previous e now episode_id v k id,
)

abbrev pub episode_of : Option State → Text
episode_of none = []
episode_of (some s) = s.episode_id

abbrev pub came_of : Option State → Option Time
came_of none = none
came_of (some s) = s.came_time

abbrev pub is_pending : Option State → Bool
is_pending none = false
is_pending (some s) = s.pending

-- How a state follows from the previous one under an evaluation.
pub record Follows (previous : Option State) (e : Evaluation) (now : Time) (episode_id : Text)
    (s : State) : Type 0 where
  pub active : s.active ≡ e.active
  pub starts :
      e.active ≡ true
      → was_active previous ≡ false
      → (s.episode_id ≡ episode_id)
        × (s.came_time ≡ some (utc now))
        × (s.went_time ≡ none)
        × (s.pending
            ≡ (e.pending || (e.presentation.requires_acknowledgement && not e.acknowledged)))
  pub goes_on :
      (e.active && not (was_active previous)) ≡ false
      → (s.episode_id ≡ episode_of previous)
        × (s.came_time ≡ came_of previous)
        × (s.pending ≡ (is_pending previous || e.pending))
  pub ends : e.active ≡ false → was_active previous ≡ true → s.went_time ≡ some (utc now)
  pub unacknowledged : s.pending ≡ true → (s.acknowledged ≡ false) × (s.ack_time ≡ none)

next_state-Follows :
    (previous : Option State) (e : Evaluation) (now : Time) (episode_id : Text)
    → check_previous previous ≡ ok tt
    → Follows previous e now episode_id (next_state previous e now episode_id)
unfolding next_state carry start_episode continue_episode end_episode
next_state-Follows none e now episode_id v = ground arith
next_state-Follows (some previous) e now episode_id v = ground arith

-- On a valid previous state, an evaluation as the evaluators return it and an episode ID,
-- ApplyEvaluation never fails. The state that it returns is valid and active as evaluated. A new
-- episode takes the ID and the time, and is pending if it needs an acknowledgement; otherwise the ID
-- and the time that it came are kept, and what was pending stays pending. The time that it went is set
-- when it ends, and while it is pending it is neither acknowledged nor has an acknowledgement time.
pub apply_evaluation_total :
    (previous : Option State) (e : Evaluation) (now : Time) (episode_id : Text)
    → check_previous previous ≡ ok tt
    → IsEvaluation e
    → is_empty episode_id ≡ false
    → (s : State) × (apply_evaluation previous e now episode_id ≡ ok s)
      × (validate_state s ≡ ok tt)
      × Follows previous e now episode_id s
apply_evaluation_total previous e now episode_id v k id = (
  next_state previous e now episode_id,
  apply_evaluation-next_state previous e now episode_id v k id,
  next_state-validate_state previous e now episode_id v k id,
  next_state-Follows previous e now episode_id v,
)

abbrev pub acknowledged_at : State → Time → State
acknowledged_at s now = record s { pending = false; acknowledged = true; ack_time = some (utc now) }

acknowledged_at-flags :
    (s : State) (now : Time)
    → validate_flags s ≡ ok tt
    → validate_flags (acknowledged_at s now) ≡ ok tt
unfolding validate_flags
acknowledged_at-flags s now v = ground arith

acknowledged_at-validate_state :
    (s : State) (now : Time)
    → validate_state s ≡ ok tt
    → validate_state (acknowledged_at s now) ≡ ok tt
unfolding validate_state
acknowledged_at-validate_state s now v =
    let (flags, rest) = >>-eq_ok (validate_flags s) _ v in
    rw (acknowledged_at-flags s now flags, rest)

-- Acknowledge succeeds exactly on a valid pending state whose episode ID is the given one. It then
-- clears `pending`, sets `acknowledged` and the time in UTC, changes nothing else, and gives a valid
-- state.
pub acknowledge_iff :
    (s : State) (episode_id : Text) (now : Time) (t : State)
    → (acknowledge s episode_id now ≡ ok t) ↔ (
        (validate_state s ≡ ok tt)
        × (is_empty episode_id ≡ false)
        × (episode_id ≡ s.episode_id)
        × (s.pending ≡ true)
        × (t ≡ acknowledged_at s now)
        × (validate_state t ≡ ok tt))
unfolding acknowledge
acknowledge_iff s episode_id now t = (
  λ h.
      let (valid, h1) = >>-eq_ok (validate_state s) _ h in
      let same : t ≡ acknowledged_at s now = ground arith in
      (
        valid,
        ground arith,
        ground (arith, text_eq_iff episode_id s.episode_id),
        ground arith,
        same,
        subst (λ u. validate_state u ≡ ok tt) (sym same)
            (acknowledged_at-validate_state s now valid),
      ),
  λ (valid, some_id, same_id, pending, same, _).
      ground (arith, valid, some_id, same_id, text_eq_iff episode_id s.episode_id, pending, same),
)

-- What ApplyEvaluation returns is valid.
pub apply_evaluation-valid :
    (previous : Option State) (e : Evaluation) (now : Time) (episode_id : Text) (state : State)
    → apply_evaluation previous e now episode_id ≡ ok state
    → validate_state state ≡ ok tt
unfolding apply_evaluation
apply_evaluation-valid previous e now episode_id state h =
    let (_, rest) = >>-eq_ok (check_previous previous) _ h in
    let (next, _, checked) = >>=-eq_ok (advance previous e (utc now) episode_id) _ rest in
    let (valid, same) = >>-eq_ok (validate_state next) (ok next) checked in
    subst (λ u. validate_state u ≡ ok tt) (ok-injective same) valid
