-- ===== src/Alert/Evaluator/Plain.antt =====
-- The evaluations of binary and value alerts in alert/evaluator.go are ones ApplyEvaluation accepts.
use go_scada.Value.{Value}
use go_scada.Float.{is_nan, is_inf}
use go_scada.Base.{
  Text, Bool, true, false, ◌≡◌, [], Option, none, some, ok, arith, refl, >>-eq_ok, >>=-eq_ok,
  wrap-eq_ok, Dict, lookup, subst, wrap, sym, ok-injective, ◌>>=◌, ap, Result, ◌>>◌, Bool-cases,
  inl, inr, codes, not, ◌&&◌, All, ℕ, if◌then◌else◌, ◌∷◌, List, fail_if, ◌||◌,
}
use go_scada.Alert.Model.{
  Properties, Presentation, Evaluation, no_presentation, BinaryConfig, ValueConfig, Mapping,
  Interval, ValueType, int64, float64, other_type,
}
use go_scada.Alert.Protocol.{
  validate_property_reference, validate_properties, check_property, property_invalid, AlertError,
  binary_mapping, validate_mapping, validate_binary, input_not_finite, wrong_value_type,
}
use go_scada.Alert.Validation.{validate_presentation, validate_members, validate_value}
use go_scada.Alert.Evaluator.{
  found_presentation, presentation_of, resolve_presentation, presentation_if, plain,
  evaluate_binary, evaluate_value, evaluate_kind, first_interval, evaluation_for_interval,
  same_flag, is_int64, is_float64, evaluate_int64, evaluate_float64,
}
use go_scada.Alert.Validation.Cover.{validate_value-IsInterval, IsInterval}
use go_scada.Alert.Evaluator.Lifecycle.{IsEvaluation}

properties-valid :
    (subject : Text) (q : Properties)
    → validate_property_reference subject ≡ ok tt
    → validate_properties q ≡ ok tt
    → validate_presentation (presentation_of subject q) ≡ ok tt
unfolding presentation_of validate_presentation validate_properties
properties-valid subject q v h = ground (arith, v)

found_presentation-valid :
    (subject : Text) (o : Option Properties) (p : Presentation)
    → validate_property_reference subject ≡ ok tt
    → found_presentation subject o ≡ ok p
    → validate_presentation p ≡ ok tt
unfolding found_presentation
found_presentation-valid subject none p v h = cc
found_presentation-valid subject (some q) p v h =
    let (checked, same) = >>-eq_ok (wrap (property_invalid subject) (validate_properties q)) _ h in
    subst (λ r. validate_presentation r ≡ ok tt) (ok-injective same)
      (properties-valid subject q v (wrap-eq_ok (property_invalid subject) _ checked))

no_presentation-quiet : validate_presentation no_presentation ≡ ok tt
unfolding validate_presentation
no_presentation-quiet = refl

no_members-valid : validate_members [] [] ≡ ok tt
unfolding validate_members
no_members-valid = refl

presentation_if-valid :
    (active : Bool) (subject : Text) (properties : Dict Properties) (p : Presentation)
    → check_property active subject ≡ ok tt
    → presentation_if active subject properties ≡ ok p
    → (validate_presentation p ≡ ok tt) × (active ≡ false → p.requires_acknowledgement ≡ false)
unfolding presentation_if resolve_presentation check_property
presentation_if-valid true subject properties p v h =
    (found_presentation-valid subject (lookup subject properties) p v h, λ e. absurd cc)
presentation_if-valid false subject properties p v h = (
  subst (λ r. validate_presentation r ≡ ok tt) (ok-injective h) no_presentation-quiet,
  λ _. ap (λ r. r.requires_acknowledgement) (sym (ok-injective h)),
)

plain-IsEvaluation :
    (active : Bool) (subject text : Text) (properties : Dict Properties) (e : Evaluation)
    → check_property active subject ≡ ok tt
    → (presentation_if active subject properties >>= λ p. ok (plain active p text)) ≡ ok e
    → IsEvaluation e
unfolding plain
plain-IsEvaluation active subject text properties e v h =
    let (p, found, same) = >>=-eq_ok (presentation_if active subject properties) _ h in
    subst IsEvaluation (ok-injective same) (record {
      presentation = (presentation_if-valid active subject properties p v found).0;
      members = no_members-valid;
      quiet =
          λ a _. ground (arith, (presentation_if-valid active subject properties p v found).1 a);
    })

mapping-valid :
    (name : Text) (active : Bool) (m : Mapping)
    → validate_mapping name active m ≡ ok tt
    → check_property active m.property ≡ ok tt
unfolding validate_mapping
mapping-valid name active m h =
    (>>-eq_ok (check_property active m.property) _ (wrap-eq_ok (binary_mapping name) _ h)).0

pub evaluate_binary-IsEvaluation :
    (config : BinaryConfig) (value : Bool) (properties : Dict Properties) (e : Evaluation)
    → evaluate_binary config value properties ≡ ok e
    → IsEvaluation e
unfolding evaluate_binary validate_binary
evaluate_binary-IsEvaluation config value properties e h =
    let (valid, rest) = >>-eq_ok (validate_binary config) _ h in
    let (when_true, when_false) =
      >>-eq_ok (validate_mapping (codes "true") config.bad_value config.when_true) _ valid in
    of_value value when_true when_false rest
  where
    of_value :
        (v : Bool)
        → validate_mapping (codes "true") config.bad_value config.when_true ≡ ok tt
        → validate_mapping (codes "false") (not config.bad_value) config.when_false ≡ ok tt
        → (let mapping : Mapping = if v then config.when_true else config.when_false in
            let active : Bool = same_flag v config.bad_value in
            presentation_if active mapping.property properties >>= λ p.
            ok (plain active p mapping.text))
          ≡ ok e
        → IsEvaluation e
    of_value true t f r =
        plain-IsEvaluation config.bad_value config.when_true.property config.when_true.text
          properties e (mapping-valid (codes "true") config.bad_value config.when_true t) r
    of_value false t f r =
        plain-IsEvaluation (not config.bad_value) config.when_false.property config.when_false.text
          properties e (mapping-valid (codes "false") (not config.bad_value) config.when_false f) r

first_interval-found :
    {P : Interval → Type 0} (lower upper : Option Text → Result AlertError Bool)
    (is : List Interval) (properties : Dict Properties) (e : Evaluation)
    → All P is
    → first_interval lower upper is properties ≡ ok e
    → (i : Interval) × P i × (evaluation_for_interval i properties ≡ ok e)
unfolding first_interval
first_interval-found lower upper [] properties e p h = cc
first_interval-found lower upper (i ∷ is) properties e (p, ps) h =
    let (low, _, h1) = >>=-eq_ok (lower i.lower) _ h in
    let (high, _, h2) = >>=-eq_ok (upper i.upper) _ h1 in
    elim (Bool-cases (low && high)) [
      | inl on ↦ (i, p, ground (arith, on, h2))
      | inr off ↦ first_interval-found lower upper is properties e ps (ground (arith, off, h2))
    ]

interval-IsEvaluation :
    (parse_float : Text → Option ℕ) (kind : ValueType) (i : Interval) (properties : Dict Properties)
    (e : Evaluation)
    → IsInterval parse_float kind i
    → evaluation_for_interval i properties ≡ ok e
    → IsEvaluation e
unfolding evaluation_for_interval
interval-IsEvaluation parse_float kind i properties e v h =
    plain-IsEvaluation i.active i.property i.text properties e v.property h

intervals-IsEvaluation :
    (parse_float : Text → Option ℕ) (config : ValueConfig)
    (lower upper : Option Text → Result AlertError Bool) (properties : Dict Properties)
    (e : Evaluation)
    → (validate_value parse_float config >> first_interval lower upper config.intervals properties)
      ≡ ok e
    → IsEvaluation e
intervals-IsEvaluation parse_float config lower upper properties e h =
    let (valid, h1) = >>-eq_ok (validate_value parse_float config) _ h in
    let (i, v, found) =
      first_interval-found {P = IsInterval parse_float config.value_type} lower upper
        config.intervals properties e (validate_value-IsInterval parse_float config valid) h1 in
    interval-IsEvaluation parse_float config.value_type i properties e v found

pub evaluate_value-IsEvaluation :
    (parse_float : Text → Option ℕ) (config : ValueConfig) (v : Value)
    (properties : Dict Properties) (e : Evaluation)
    → evaluate_value parse_float config v properties ≡ ok e
    → IsEvaluation e
unfolding evaluate_value evaluate_kind evaluate_int64 evaluate_float64
evaluate_value-IsEvaluation parse_float config v properties e h = of_kind config.value_type v h
  where
    of_kind :
        (k : ValueType) (w : Value)
        → evaluate_kind parse_float k config w properties ≡ ok e
        → IsEvaluation e
    of_kind int64 (Value.int64 n) r =
        intervals-IsEvaluation parse_float config _ _ properties e
          (>>-eq_ok
            (fail_if (not (is_int64 config.value_type)) (wrong_value_type config.value_type)) _ r).1
    of_kind int64 (Value.bool b) r = cc
    of_kind int64 (Value.float64 b) r = cc
    of_kind int64 (Value.string s) r = cc
    of_kind float64 (Value.float64 b) r =
        let (_, number) =
          >>-eq_ok
            (fail_if (not (is_float64 config.value_type)) (wrong_value_type config.value_type)) _
            r in
        intervals-IsEvaluation parse_float config _ _ properties e
          (>>-eq_ok (fail_if (is_nan b || is_inf b) input_not_finite) _ number).1
    of_kind float64 (Value.bool b) r = cc
    of_kind float64 (Value.int64 n) r = cc
    of_kind float64 (Value.string s) r = cc
    of_kind (other_type name) _ r = cc
