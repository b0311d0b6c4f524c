-- ===== src/Alert/Service/Valid.antt =====
-- alert/service.go: every state that the service keeps is valid, whatever arrives.
pub mod Configured
use go_scada.Base.{
  Text, ◌≡◌, [], ◌∷◌, some, ok, All, Dict, lookup, insert, remove, if_cases, text_eq, Bool-cases,
  arith, inl, inr, >>-eq_ok, >>=-eq_ok, subst, ok-injective,
}
use go_scada.Alert.Model.{State}
use go_scada.Alert.Validation.{validate_state, parse_state, parse_state_unchecked}
use go_scada.Alert.Service.{Environment, Service}
use go_scada.Alert.Service.Evaluating.{send}
use go_scada.Alert.Service.Keeping.{Keeps}

abbrev pub IsValidEntry : Text × State → Type 0
IsValidEntry (subject, state) = validate_state state ≡ ok tt

abbrev pub ValidStates : Service → Type 0
ValidStates s = All IsValidEntry s.states

All-remove : (k : Text) (m : Dict State) → All IsValidEntry m → All IsValidEntry (remove k m)
unfolding remove
All-remove k [] h = tt
All-remove k ((j, v) ∷ m) h =
    if_cases (All IsValidEntry) (text_eq j k) (remove k m) ((j, v) ∷ remove k m)
      (λ _. All-remove k m h.1) (λ _. (h.0, All-remove k m h.1))

pub All-insert :
    (k : Text) (state : State) (m : Dict State)
    → validate_state state ≡ ok tt
    → All IsValidEntry m
    → All IsValidEntry (insert k state m)
unfolding insert
All-insert k state m v h = (v, All-remove k m h)

pub lookup-valid :
    (k : Text) (m : Dict State) (state : State)
    → All IsValidEntry m
    → lookup k m ≡ some state
    → validate_state state ≡ ok tt
unfolding lookup
lookup-valid k [] state h e = absurd cc
lookup-valid k ((j, v) ∷ m) state h e = elim (Bool-cases (text_eq j k)) [
  | inl same ↦ subst (λ u. validate_state u ≡ ok tt) (ground arith) h.0
  | inr other ↦ lookup-valid k m state h.1 (ground arith)
]

-- What ParseState returns is valid.
pub parse_state-valid :
    (env : Environment) (raw : Text) (state : State)
    → parse_state env.decode_state raw ≡ ok state
    → validate_state state ≡ ok tt
unfolding parse_state
parse_state-valid env raw state h =
    let (incoming, _, rest) = >>=-eq_ok (parse_state_unchecked env.decode_state raw) _ h in
    let (valid, same) = >>-eq_ok (validate_state incoming) (ok incoming) rest in
    subst (λ u. validate_state u ≡ ok tt) (ok-injective same) valid

pub ValidStates-Keeps : (env : Environment) → Keeps env ValidStates
unfolding send
ValidStates-Keeps env = record {
  sends = λ subject encoded s h.
      if_cases ValidStates (env.publishes s.calls subject encoded) _ _ (λ _. h) (λ _. h);
  ticks = λ s h. h;
  stores = λ subject state s v h. All-insert subject state s.states v h;
}
