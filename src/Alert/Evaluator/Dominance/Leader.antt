-- ===== src/Alert/Evaluator/Dominance/Leader.antt =====
-- The dominant member in the loop of EvaluateSummary of alert/evaluator.go.
use mathlib.Core.List.{append_assoc}
use go_scada.Base.{
  inl, inr, Text, Bool, true, false, ◌||◌, ◌≡◌, ◌<ℤ◌, List, [], ◌∷◌, ◌++◌, Option, none, some, ok,
  arith, All, All-append, All-map, Dict, lookup, refl, sym, subst, if◌then◌else◌, Bool-cases, ◌∙◌,
}
use go_scada.Alert.Model.{State}
use go_scada.Alert.Validation.{validate_state}
use go_scada.Alert.Evaluator.{Summing, dominates, count_member, same_flag}

-- `s` stands before `d` in the order by activity, then priority.
abbrev pub outranks : State → State → Bool
outranks s d =
    if same_flag s.active d.active
    then d.presentation.priority <ℤ s.presentation.priority
    else s.active

abbrev pub holds : (State → Bool) → Option State → Bool
holds p none = false
holds p (some s) = p s

abbrev pub active_at : Dict State → Text → Bool
active_at states m = holds (λ s. s.active) (lookup m states)

abbrev pub pending_at : Dict State → Text → Bool
pending_at states m = holds (λ s. s.pending) (lookup m states)

abbrev pub shown_at : Dict State → Text → Bool
shown_at states m = active_at states m || pending_at states m

-- The member has a state with `P`.
abbrev pub StateAt : Dict State → (State → Type 0) → Text → Type 0
StateAt states P m = (s : State) × (lookup m states ≡ some s) × P s

-- The dominant member, for its state: no shown member outranks it, and it outranks those before.
abbrev pub Leads : Dict State → List Text → Text → Option State → Type 0
Leads states shown subject none = (shown ≡ []) × (subject ≡ [])
Leads states shown subject (some d) =
    (before : List Text) × (after : List Text) × (shown ≡ before ++ subject ∷ after)
    × (lookup subject states ≡ some d)
    × (validate_state d ≡ ok tt)
    × All (StateAt states (λ s. outranks d s ≡ true)) before
    × All (StateAt states (λ s. outranks s d ≡ false)) after

outranks_trans : (a b c : State) → outranks a b ≡ true → outranks b c ≡ true → outranks a c ≡ true
outranks_trans a b c h k = ground arith

outranks_above : (a b c : State) → outranks a b ≡ true → outranks c b ≡ false → outranks a c ≡ true
outranks_above a b c h k = ground arith

dominates-outranks : (s d : State) → dominates s (some d) ≡ outranks s d
dominates-outranks s d = ground arith

Leads-keep :
    (states : Dict State) (shown : List Text) (subject : Text) (d : State) (m : Text) (s : State)
    → Leads states shown subject (some d)
    → lookup m states ≡ some s
    → outranks s d ≡ false
    → Leads states (shown ++ m ∷ []) subject (some d)
Leads-keep states shown subject d m s (before, after, split, found, valid, lower, rest) at h = (
  before,
  after ++ m ∷ [],
  rw (split, append_assoc),
  found,
  valid,
  lower,
  All-append _ after (m ∷ []) rest ((s, at, h), tt),
)

Leads-take :
    (states : Dict State) (shown : List Text) (subject : Text) (o : Option State) (m : Text)
    (s : State)
    → Leads states shown subject o
    → lookup m states ≡ some s
    → validate_state s ≡ ok tt
    → dominates s o ≡ true
    → Leads states (shown ++ m ∷ []) m (some s)
Leads-take states shown subject none m s (none_shown, _) at valid h =
    ([], [], rw (none_shown) refl, at, valid, tt, tt)
Leads-take states shown subject (some d) m s leads at valid h =
    let (before, after, split, found, _, lower, rest) = leads in
    let above : outranks s d ≡ true = sym (dominates-outranks s d) ∙ h in
    (
      shown,
      [],
      refl,
      at,
      valid,
      subst (All (StateAt states (λ x. outranks s x ≡ true))) (sym split) (
          All-append _ before (subject ∷ after)
            (All-map (StateAt states (λ x. outranks d x ≡ true)) _ before
              (λ x (c, l, k). (c, l, outranks_trans s d c above k)) lower)
            (
              (d, found, above),
              All-map (StateAt states (λ x. outranks x d ≡ false)) _ after
                  (λ x (c, l, k). (c, l, outranks_above s d c above k)) rest,
            )),
      tt,
    )

Leads-pass :
    (states : Dict State) (shown : List Text) (subject : Text) (o : Option State) (m : Text)
    (s : State)
    → Leads states shown subject o
    → lookup m states ≡ some s
    → dominates s o ≡ false
    → Leads states (shown ++ m ∷ []) subject o
Leads-pass states shown subject none m s leads at h = cc
Leads-pass states shown subject (some d) m s leads at h =
    Leads-keep states shown subject d m s leads at (sym (dominates-outranks s d) ∙ h)

pub Leads-count :
    (states : Dict State) (m : Text) (s : State) (r : Summing)
    → Leads states r.members r.subject r.dominant
    → lookup m states ≡ some s
    → validate_state s ≡ ok tt
    → let c = count_member m s r in Leads states c.members c.subject c.dominant
unfolding count_member
Leads-count states m s r leads at valid = elim (Bool-cases (dominates s r.dominant)) [
  | inl h ↦ rw h (Leads-take states r.members r.subject r.dominant m s leads at valid h)
  | inr h ↦ rw h (Leads-pass states r.members r.subject r.dominant m s leads at h)
]
