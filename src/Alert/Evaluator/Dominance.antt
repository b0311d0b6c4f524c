-- ===== src/Alert/Evaluator/Dominance.antt =====
-- EvaluateSummary in alert/evaluator.go: what it shows of the members, and its dominant member.
pub mod Leader
use mathlib.Core.List.{append_assoc, append-nil}
use go_scada.Base.{
  inl, inr, Text, Bool, true, false, not, ◌&&◌, ◌||◌, ◌≡◌, ◌<ℤ◌, List, [], ◌∷◌, ◌++◌, Option, none,
  some, Result, ok, err, arith, All, All-append, All-map, any, any-append, filter, filter-append,
  Dict, lookup, text_eq, text_eq_iff, mem_text, mem_text-middle, is_empty, >>-eq_ok, >>=-eq_ok,
  wrap-eq_ok, refl, sym, subst, if◌then◌else◌, has_suffix, trim_suffix, Bool-cases, ◌∙◌, ap,
  <ℤ_trans,
}
use go_scada.Alert.Model.{SummaryConfig, State, Evaluation, no_presentation, Presentation}
use go_scada.Alert.Protocol.{AlertError, validate_summary, validate_subject, member_invalid}
use go_scada.Alert.Validation.{
  validate_state, validate_presentation, validate_members, check_state_members,
}
use go_scada.Alert.Evaluator.{
  Summing, no_members_yet, dominates, count_member, sum_member, sum_members, summary_evaluation,
  evaluate_summary, same_flag,
}
use go_scada.Alert.Evaluator.Dominance.Leader.{
  outranks, holds, active_at, pending_at, shown_at, StateAt, Leads, Leads-count,
}

-- The loop's variables after the members `seen`.
record Sums (states : Dict State) (seen : List Text) (r : Summing) : Type 0 where
  active : r.active ≡ any (active_at states) seen
  pending : r.pending ≡ any (pending_at states) seen
  members : r.members ≡ filter (shown_at states) seen
  leads : Leads states r.members r.subject r.dominant
  quiet : r.dominant ≡ none → (r.active ≡ false) × (r.pending ≡ false)

passed_some : (s : State) (o : Option State) → dominates s o ≡ false → ¬ (o ≡ none)
passed_some s none h = cc
passed_some s (some d) h = cc

counted-fields :
    (m : Text) (s : State) (r : Summing)
    → let c = count_member m s r in
      (c.active ≡ (r.active || s.active))
      × (c.pending ≡ (r.pending || s.pending))
      × (c.members ≡ r.members ++ m ∷ [])
      × (¬ (c.dominant ≡ none))
unfolding count_member
counted-fields m s r = elim (Bool-cases (dominates s r.dominant)) [
  | inl h ↦ rw h (refl, refl, refl, λ e. absurd cc)
  | inr h ↦ rw h (refl, refl, refl, passed_some s r.dominant h)
]

at_end :
    (p : State → Bool) (states : Dict State) (seen : List Text) (m : Text) (s : State)
    → lookup m states ≡ some s
    → any (λ x. holds p (lookup x states)) (seen ++ m ∷ [])
      ≡ (any (λ x. holds p (lookup x states)) seen || p s)
at_end p states seen m s at = rw (any-append) (ground (arith, at))

shown_at_end :
    (states : Dict State) (seen : List Text) (m : Text) (s : State)
    → lookup m states ≡ some s
    → filter (shown_at states) (seen ++ m ∷ [])
      ≡ filter (shown_at states) seen ++ (if s.active || s.pending then m ∷ [] else [])
shown_at_end states seen m s at = rw (filter-append) (ground (arith, at))

Sums-skip :
    (states : Dict State) (seen : List Text) (r : Summing) (m : Text) (s : State)
    → Sums states seen r
    → lookup m states ≡ some s
    → (s.active || s.pending) ≡ false
    → Sums states (seen ++ m ∷ []) r
Sums-skip states seen r m s sums at off = record {
  active = ground (arith, at_end (λ x. x.active) states seen m s at, sums.active);
  pending = ground (arith, at_end (λ x. x.pending) states seen m s at, sums.pending);
  members = ground (
    arith,
    shown_at_end states seen m s at,
    sums.members,
    append-nil (filter (shown_at states) seen),
  );
  leads = sums.leads;
  quiet = sums.quiet;
}

Sums-count :
    (states : Dict State) (seen : List Text) (r : Summing) (m : Text) (s : State)
    → Sums states seen r
    → lookup m states ≡ some s
    → validate_state s ≡ ok tt
    → (s.active || s.pending) ≡ true
    → Sums states (seen ++ m ∷ []) (count_member m s r)
Sums-count states seen r m s sums at valid on =
    let (a, p, ms, some_d) = counted-fields m s r in
    record {
      active = ground (arith, a, at_end (λ x. x.active) states seen m s at, sums.active);
      pending = ground (arith, p, at_end (λ x. x.pending) states seen m s at, sums.pending);
      members = ground (arith, ms, shown_at_end states seen m s at, sums.members);
      leads = Leads-count states m s r sums.leads at valid;
      quiet = λ e. absurd (some_d e);
    }

Sums-member :
    (states : Dict State) (seen : List Text) (r : Summing) (m : Text) (s : State)
    → Sums states seen r
    → lookup m states ≡ some s
    → validate_state s ≡ ok tt
    → (r' : Summing) × (sum_member m (some s) r ≡ ok r') × Sums states (seen ++ m ∷ []) r'
unfolding sum_member
Sums-member states seen r m s sums at valid = elim (Bool-cases (s.active || s.pending)) [
  | inl on ↦
      (count_member m s r, ground (arith, valid, on), Sums-count states seen r m s sums at valid on)
  | inr off ↦ (r, ground (arith, valid, off), Sums-skip states seen r m s sums at off)
]

abbrev pub HasValidState : Dict State → Text → Type 0
HasValidState states m = StateAt states (λ s. validate_state s ≡ ok tt) m

Sums-members :
    (states : Dict State) (seen ms : List Text) (r : Summing)
    → Sums states seen r
    → All (HasValidState states) ms
    → (r' : Summing) × (sum_members ms states r ≡ ok r') × Sums states (seen ++ ms) r'
unfolding sum_members
Sums-members states seen [] r sums h = (r, refl, rw (append-nil) sums)
Sums-members states seen (m ∷ ms) r sums ((s, at, valid), h) =
    let (r1, e1, s1) = Sums-member states seen r m s sums at valid in
    let (r2, e2, s2) = Sums-members states (seen ++ m ∷ []) ms r1 s1 h in
    (r2, rw (at, e1, e2) refl, subst (λ l. Sums states l r2) (append_assoc seen (m ∷ []) ms) s2)

abbrev pub presentation_from : Option State → Presentation
presentation_from none = no_presentation
presentation_from (some d) = d.presentation

abbrev pub text_from : Option State → Text
text_from none = []
text_from (some d) = d.text

-- What the evaluation of a summary says of its members' states.
pub record IsSummary (states : Dict State) (configured : List Text) (e : Evaluation) : Type 0 where
  pub active : e.active ≡ any (active_at states) configured
  pub pending : e.pending ≡ any (pending_at states) configured
  pub acknowledged : e.acknowledged ≡ not e.pending
  pub members : e.members ≡ filter (shown_at states) configured
  pub leader : Option State
  pub leads : Leads states e.members e.dominant leader
  pub presentation : e.presentation ≡ presentation_from leader
  pub text : e.text ≡ text_from leader

summary_evaluation-IsSummary :
    (states : Dict State) (members : List Text) (r : Summing) (o : Option State)
    → r.dominant ≡ o
    → Sums states members r
    → IsSummary states members (summary_evaluation r o)
unfolding summary_evaluation
summary_evaluation-IsSummary states members r none e sums = record {
  active = sums.active;
  pending = sums.pending;
  acknowledged = rw ((sums.quiet e).1) refl;
  members = sums.members;
  leader = none;
  leads = subst (Leads states r.members r.subject) e sums.leads;
  presentation = refl;
  text = refl;
}
summary_evaluation-IsSummary states members r (some d) e sums = record {
  active = sums.active;
  pending = sums.pending;
  acknowledged = refl;
  members = sums.members;
  leader = some d;
  leads = subst (Leads states r.members r.subject) e sums.leads;
  presentation = refl;
  text = refl;
}

-- On a valid summary whose members all have valid states, EvaluateSummary succeeds: active and pending
-- are those of any member, it is acknowledged unless pending, and it lists the members that are active
-- or pending, in the order configured. The dominant member, which gives the presentation and the text,
-- is the first of these that none outranks: an active one before one that only waits, then a higher
-- priority. If there is none, both are empty.
pub evaluate_summary-dominant :
    (config : SummaryConfig) (states : Dict State)
    → validate_summary config ≡ ok tt
    → All (HasValidState states) config.members
    → (e : Evaluation) × (evaluate_summary config states ≡ ok e) × IsSummary states config.members e
unfolding evaluate_summary
evaluate_summary-dominant config states valid h =
    let (r, same, sums) =
      Sums-members states [] config.members no_members_yet
        (record {
          active = refl;
          pending = refl;
          members = refl;
          leads = (refl, refl);
          quiet = λ e. (refl, refl);
        })
        h in
    (
      summary_evaluation r r.dominant,
      rw (valid, same) refl,
      summary_evaluation-IsSummary states config.members r r.dominant refl sums,
    )
