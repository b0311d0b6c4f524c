-- ===== src/Alert/Service/Storing.antt =====
-- alert/service.go: what storing a state leaves in the maps and sends, and what an evaluation stores.
use go_scada.Base.{
  suc, Text, Bool, true, false, not, ◌&&◌, ◌≡◌, refl, sym, ◌∙◌, ap, [], ◌∷◌, Option, none, some,
  Result, ok, err, Dict, lookup, insert, if◌then◌else◌, is_empty, text_eq_refl, lookup-insert_self,
  lookup-remove, Bool-cases, arith, inl, inr, ◌⊎◌, subst, ok-injective, &&-eq_true,
}
use go_scada.Alert.Model.{
  State, Evaluation, binary, value, summary, other, AlertType, Config, Properties, SummaryConfig,
  BinaryConfig, ValueConfig,
}
use go_scada.Value.{Value, bool, int64, float64, string}
use go_scada.Alert.Protocol.{AlertError}
use go_scada.Alert.Validation.{
  validate_state, marshal_state, validate_presentation, validate_members,
}
use go_scada.Alert.Evaluator.{check_previous}
use go_scada.Alert.Evaluator.Lifecycle.{IsEvaluation, Follows, apply_evaluation_total}
use go_scada.Alert.Evaluator.Accepted.{by_binary, by_value, by_summary, Evaluated-IsEvaluation}
use go_scada.Alert.Service.{Environment, Definition, Service, tick}
use go_scada.Alert.Service.Comparing.{state_eq→eq}
use go_scada.Alert.Service.Evaluating.{
  evaluated, outcome, kind_outcome, binary_outcome, value_outcome, summary_outcome,
  evaluate_members, collect_members, is_dirty, same_state, send, store_encoded, store_and_publish,
  store_applied, apply, make_inactive, apply_outcome, evaluate_found, evaluate_definition,
  inactive_evaluation, zero_evaluation,
}
use go_scada.Alert.Service.Valid.{ValidStates, lookup-valid}

same_state→some : (o : Option State) (state : State) → same_state o state ≡ true → o ≡ some state
same_state→some none state h = cc
same_state→some (some previous) state h = ap some (state_eq→eq previous state h)

evaluated-ok : {r q : Result AlertError Evaluation} → evaluated r ≡ evaluated q → r ≡ q
evaluated-ok h = cc

module _ (env : Environment) where
  marshal-valid :
      (state : State)
      → validate_state state ≡ ok tt
      → marshal_state env.encode_state state ≡ ok (env.encode_state state)
  unfolding marshal_state
  marshal-valid state v = rw v

  -- Nothing has to be sent: the state is the one that is kept, and it is not dirty.
  abbrev pub is_settled : Text → State → Service → Bool
  is_settled subject state s =
      same_state (lookup subject s.states) state && not (is_dirty subject s)

  -- What the maps and the stream hold after PublishString was called with the state.
  pub record Offered (subject : Text) (state : State) (s t : Service) : Type 0 where
    pub kept : lookup subject t.states ≡ some state
    pub sent : t.sent ≡ (
        if env.publishes s.calls subject (env.encode_state state)
        then (subject, env.encode_state state) ∷ s.sent
        else s.sent)
    pub published : lookup subject t.published ≡ (
        if env.publishes s.calls subject (env.encode_state state)
        then some (env.encode_state state)
        else none)
    pub dirty : is_dirty subject t ≡ not (env.publishes s.calls subject (env.encode_state state))
    pub called : t.calls ≡ suc s.calls

  send-Offered :
      (subject : Text) (state : State) (s : Service)
      → lookup subject s.states ≡ some state
      → Offered subject state s (send env subject (env.encode_state state) s)
  unfolding send
  send-Offered subject state s kept =
      elim (Bool-cases (env.publishes s.calls subject (env.encode_state state))) [
        | inl works ↦ record {
          kept = rw works kept;
          sent = rw works;
          published = rw works (lookup-insert_self subject (env.encode_state state) s.published);
          dirty =
              rw works
                (ground (arith, lookup-remove subject subject s.dirty, text_eq_refl subject));
          called = rw works;
        }
        | inr fails ↦ record {
          kept = rw fails kept;
          sent = rw fails;
          published = rw (fails, lookup-remove, text_eq_refl);
          dirty = rw fails (ground (arith, lookup-insert_self subject true s.dirty));
          called = rw fails;
        }
      ]

  -- storeAndPublishLocked with a valid state: if the state is the one that is kept and is not dirty,
  -- nothing changes. Otherwise it is kept, and PublishString is called once; if it succeeds, the state is
  -- the published one and not dirty, and if it fails, nothing is published for the subject and it is
  -- dirty.
  pub store_and_publish_lem :
      (subject : Text) (state : State) (s : Service)
      → validate_state state ≡ ok tt
      → (is_settled subject state s ≡ true)
          × (store_and_publish env subject state s ≡ s)
          × (lookup subject s.states ≡ some state)
        ⊎ (is_settled subject state s ≡ false)
          × Offered subject state s (store_and_publish env subject state s)
  unfolding store_and_publish store_encoded
  store_and_publish_lem subject state s v = elim (Bool-cases (is_settled subject state s)) [
    | inl works ↦
        inl (
          works,
          rw works,
          same_state→some (lookup subject s.states) state (&&-eq_true _ _ works).0,
        )
    | inr fails ↦ inr (
      fails,
      rw (fails, marshal-valid state v)
          (let o =
              send-Offered subject state (record s { states = insert subject state s.states })
                (lookup-insert_self subject state s.states) in
            record {
              kept = o.kept;
              sent = o.sent;
              published = o.published;
              dirty = o.dirty;
              called = o.called;
            }),
    )
  ]

  store_and_publish-kept :
      (subject : Text) (state : State) (s : Service)
      → validate_state state ≡ ok tt
      → lookup subject (store_and_publish env subject state s).states ≡ some state
  store_and_publish-kept subject state s v = elim (store_and_publish_lem subject state s v) [
    | inl (_, same, kept) ↦ subst (λ t. lookup subject t.states ≡ some state) (sym same) kept
    | inr (_, offered) ↦ offered.kept
  ]

  -- A state that could not be published is published by the next storeAndPublishLocked, though it is the
  -- state that is kept: after that call it stands in what was sent.
  pub store_and_publish_again :
      (subject : Text) (state : State) (s : Service)
      → validate_state state ≡ ok tt
      → is_settled subject state s ≡ false
      → env.publishes s.calls subject (env.encode_state state) ≡ false
      → env.publishes (suc s.calls) subject (env.encode_state state) ≡ true
      → (store_and_publish env subject state (store_and_publish env subject state s)).sent
        ≡ (subject, env.encode_state state) ∷ s.sent
  store_and_publish_again subject state s v unsettled fails works =
      let t = store_and_publish env subject state s in
      elim (store_and_publish_lem subject state s v) [
        | inl (settled, _, _) ↦ absurd cc
        | inr (_, first) ↦ elim (store_and_publish_lem subject state t v) [
          | inl (settled, _, _) ↦ absurd (ground (arith, first.dirty, fails, settled))
          | inr (_, second) ↦ second.sent ∙ ground (arith, first.sent, first.called, fails, works)
        ]
      ]

  check-lookup :
      (subject : Text) (s : Service)
      → ValidStates s
      → check_previous (lookup subject s.states) ≡ ok tt
  unfolding check_previous
  check-lookup subject s h = of (lookup subject s.states) refl
    where
      of : (o : Option State) → lookup subject s.states ≡ o → check_previous o ≡ ok tt
      of none e = refl
      of (some previous) e = rw (lookup-valid subject s.states previous h e)

  -- What the service keeps for an output after an evaluation.
  pub record Applied (output : Text) (e : Evaluation) (s t : Service) : Type 0 where
    pub next : State
    pub kept : lookup output t.states ≡ some next
    pub valid : validate_state next ≡ ok tt
    pub follows : Follows (lookup output s.states) e (env.now s.calls) (env.new_id s.calls) next

  pub apply-Applied :
      (output : Text) (e : Evaluation) (s : Service)
      → ValidStates s
      → IsEvaluation e
      → is_empty (env.new_id s.calls) ≡ false
      → Applied output e s (apply env output e s)
  unfolding apply store_applied
  apply-Applied output e s h is id =
      let (next, applied, valid, follows) =
        apply_evaluation_total (lookup output s.states) e (env.now s.calls) (env.new_id s.calls)
          (check-lookup output s h) is id in
      record {
        next = next;
        kept = rw applied (store_and_publish-kept output next (tick s) valid);
        valid = valid;
        follows = follows;
      }

  inactive-IsEvaluation : IsEvaluation inactive_evaluation
  unfolding validate_presentation validate_members
  inactive-IsEvaluation = record { presentation = refl; members = refl; quiet = λ a b. refl }

  zero-IsEvaluation : IsEvaluation zero_evaluation
  unfolding validate_presentation validate_members
  zero-IsEvaluation = record { presentation = refl; members = refl; quiet = λ a b. refl }

  binary-IsEvaluation :
      (config : Option BinaryConfig) (input : Option Value) (properties : Dict Properties)
      (e : Evaluation)
      → binary_outcome config input properties ≡ evaluated (ok e)
      → IsEvaluation e
  unfolding binary_outcome
  binary-IsEvaluation (some config) (some (bool b)) properties e h =
      Evaluated-IsEvaluation env.parse_float e (by_binary config b properties (evaluated-ok h))
  binary-IsEvaluation (some config) (some (int64 _)) properties e h = absurd cc
  binary-IsEvaluation (some config) (some (float64 _)) properties e h = absurd cc
  binary-IsEvaluation (some config) (some (string _)) properties e h = absurd cc
  binary-IsEvaluation (some config) none properties e h = absurd cc
  binary-IsEvaluation none input properties e h = absurd cc

  value-IsEvaluation :
      (config : Option ValueConfig) (input : Option Value) (properties : Dict Properties)
      (e : Evaluation)
      → value_outcome env.parse_float config input properties ≡ evaluated (ok e)
      → IsEvaluation e
  unfolding value_outcome
  value-IsEvaluation (some config) (some v) properties e h =
      Evaluated-IsEvaluation env.parse_float e (by_value config v properties (evaluated-ok h))
  value-IsEvaluation (some config) none properties e h = absurd cc
  value-IsEvaluation none input properties e h = absurd cc

  members-IsEvaluation :
      (config : SummaryConfig) (r : Result AlertError (Dict State)) (e : Evaluation)
      → evaluate_members config r ≡ ok e
      → IsEvaluation e
  unfolding evaluate_members
  members-IsEvaluation config (err x) e h = absurd cc
  members-IsEvaluation config (ok found) e h =
      Evaluated-IsEvaluation env.parse_float e (by_summary config found h)

  summary-IsEvaluation :
      (config : Option SummaryConfig) (states : Dict State) (e : Evaluation)
      → summary_outcome config states ≡ evaluated (ok e)
      → IsEvaluation e
  unfolding summary_outcome
  summary-IsEvaluation none states e h = absurd cc
  summary-IsEvaluation (some config) states e h =
      members-IsEvaluation config (collect_members config.members states []) e (evaluated-ok h)

  kind-IsEvaluation :
      (kind : AlertType) (config : Config) (input : Option Value) (properties : Dict Properties)
      (states : Dict State) (e : Evaluation)
      → kind_outcome env.parse_float kind config input properties states ≡ evaluated (ok e)
      → IsEvaluation e
  unfolding kind_outcome
  kind-IsEvaluation binary config input properties states e h =
      binary-IsEvaluation config.binary input properties e h
  kind-IsEvaluation value config input properties states e h =
      value-IsEvaluation config.value input properties e h
  kind-IsEvaluation summary config input properties states e h =
      summary-IsEvaluation config.summary states e h
  kind-IsEvaluation (other name) config input properties states e h =
      subst IsEvaluation (ok-injective (evaluated-ok h)) zero-IsEvaluation

  -- The evaluation that is applied: an inactive one if the evaluators fail.
  abbrev pub applied_evaluation : Result AlertError Evaluation → Evaluation
  applied_evaluation (ok e) = e
  applied_evaluation (err _) = inactive_evaluation

  outcome-Applied :
      (output : Text) (r : Result AlertError Evaluation) (s : Service)
      → ValidStates s
      → ((e : Evaluation) → r ≡ ok e → IsEvaluation e)
      → is_empty (env.new_id s.calls) ≡ false
      → Applied output (applied_evaluation r) s (apply_outcome env output (evaluated r) s)
  unfolding apply_outcome make_inactive
  outcome-Applied output (err x) s h is id =
      apply-Applied output inactive_evaluation s h inactive-IsEvaluation id
  outcome-Applied output (ok e) s h is id = apply-Applied output e s h (is e refl) id

  -- Whenever the switch of evaluateDefinitionLocked comes to an evaluation or an error, in a service
  -- whose states are valid and with a nonempty episode ID, the output has a valid state afterwards that
  -- follows from its previous one by the rules of the lifecycle, under that evaluation or, after an error,
  -- under the inactive one: no evaluation is lost in ApplyEvaluation, MarshalState or a failing
  -- PublishString.
  pub evaluate_definition_total :
      (subject : Text) (d : Definition) (r : Result AlertError Evaluation) (s : Service)
      → ValidStates s
      → lookup subject s.definitions ≡ some d
      → outcome env.parse_float d s.properties s.states ≡ evaluated r
      → is_empty (env.new_id s.calls) ≡ false
      → Applied d.output (applied_evaluation r) s (evaluate_definition env subject s)
  unfolding evaluate_definition evaluate_found outcome
  evaluate_definition_total subject d r s h found result id =
      rw (found, result)
        (outcome-Applied d.output r s h
          (λ e is_ok.
            kind-IsEvaluation d.config.kind d.config d.input s.properties s.states e
              (result ∙ ap evaluated is_ok))
          id)
