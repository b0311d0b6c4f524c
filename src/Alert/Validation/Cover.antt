-- ===== src/Alert/Validation/Cover.antt =====
-- What validateValueConfig of alert/protocol.go ensures of the intervals of a value alert.
use go_scada.Base.{
  ℕ, ◌+◌, Text, Bool, true, false, not, ◌&&◌, ◌≡◌, List, [], ◌∷◌, ◌++◌, Option, none, some, is_some,
  ok, fail_if, All, arith, refl, inl, inr, Bool-cases, >>-eq_ok, wrap-eq_ok, is_empty, trim_space,
  subst, ◌∙◌, ap,
}
use go_scada.Alert.Model.{ValueType, Interval, ValueConfig}
use go_scada.Alert.Protocol.{
  check_property, value_interval, text_required, first_unbounded, last_unbounded, not_shared,
}
use go_scada.Alert.Validation.{
  parse_bound, bound_less, bounds_equal, disordered, validate_interval, validate_intervals,
  last_upper, shared, check_shared, check_intervals, check_kind, validate_value,
}

-- An interval that validateInterval accepts.
pub record IsInterval (parse_float : Text → Option ℕ) (kind : ValueType) (i : Interval)
    : Type 0 where
  pub property : check_property i.active i.property ≡ ok tt
  pub lower_parses : parse_bound parse_float kind i.lower ≡ ok tt
  pub upper_parses : parse_bound parse_float kind i.upper ≡ ok tt
  pub ordered : disordered parse_float kind i.lower i.upper ≡ false

module _ (parse_float : Text → Option ℕ) (kind : ValueType) where
  validate_interval-IsInterval :
      (index : ℕ) (i : Interval)
      → validate_interval parse_float kind index i ≡ ok tt
      → IsInterval parse_float kind i
  unfolding validate_interval
  validate_interval-IsInterval index i h =
      let h1 = wrap-eq_ok (value_interval index) _ h in
      let (property, h2) = >>-eq_ok (check_property i.active i.property) _ h1 in
      let (_, h3) = >>-eq_ok (fail_if (is_empty (trim_space i.text)) text_required) _ h2 in
      let (lower, h4) = >>-eq_ok (parse_bound parse_float kind i.lower) _ h3 in
      let (upper, h5) = >>-eq_ok (parse_bound parse_float kind i.upper) _ h4 in
      record {
        property = property;
        lower_parses = lower;
        upper_parses = upper;
        ordered = ground (arith, h5);
      }

  validate_intervals-IsInterval :
      (index : ℕ) (is : List Interval)
      → validate_intervals parse_float kind index is ≡ ok tt
      → All (IsInterval parse_float kind) is
  unfolding validate_intervals
  validate_intervals-IsInterval index [] h = tt
  validate_intervals-IsInterval index (i ∷ is) h =
      let (one, rest) = >>-eq_ok (validate_interval parse_float kind index i) _ h in
      (validate_interval-IsInterval index i one, validate_intervals-IsInterval (index + 1) is rest)

check_intervals-IsInterval :
    (parse_float : Text → Option ℕ) (kind : ValueType) (is : List Interval)
    → check_intervals parse_float kind is ≡ ok tt
    → All (IsInterval parse_float kind) is
unfolding check_intervals
check_intervals-IsInterval parse_float kind [] h = cc
check_intervals-IsInterval parse_float kind (i ∷ is) h =
    validate_intervals-IsInterval parse_float kind 0 (i ∷ is)
      (>>-eq_ok (validate_intervals parse_float kind 0 (i ∷ is)) _ h).0

pub validate_value-IsInterval :
    (parse_float : Text → Option ℕ) (config : ValueConfig)
    → validate_value parse_float config ≡ ok tt
    → All (IsInterval parse_float config.value_type) config.intervals
unfolding validate_value
validate_value-IsInterval parse_float config h =
    check_intervals-IsInterval parse_float config.value_type config.intervals
      (>>-eq_ok (check_kind parse_float config.value_type) _ h).1

-- Consecutive intervals share a bound.
Chained : (Text → Option ℕ) → ValueType → Interval → List Interval → Type 0
Chained parse_float kind i [] = Unit
Chained parse_float kind i (next ∷ rest) =
    (shared parse_float kind i.upper next.lower ≡ true) × Chained parse_float kind next rest

check_shared-Chained :
    (parse_float : Text → Option ℕ) (kind : ValueType) (index : ℕ) (i : Interval)
    (is : List Interval)
    → check_shared parse_float kind index i is ≡ ok tt
    → Chained parse_float kind i is
unfolding Chained check_shared
check_shared-Chained parse_float kind index i [] h = tt
check_shared-Chained parse_float kind index i (next ∷ rest) h =
    let (one, more) =
      >>-eq_ok (fail_if (not (shared parse_float kind i.upper next.lower)) (not_shared index)) _
        h in
    (ground (arith, one), check_shared-Chained parse_float kind (index + 1) next rest more)

-- `below` says of a bound that a value lies below it.
abbrev pub not_under : (Text → Bool) → Option Text → Bool
not_under below none = true
not_under below (some bound) = not (below bound)

abbrev pub under : (Text → Bool) → Option Text → Bool
under below none = true
under below (some bound) = below bound

-- The interval contains the value: its lower bound belongs to it, its upper bound does not.
abbrev pub contains : (Text → Bool) → Interval → Bool
contains below i = not_under below i.lower && under below i.upper

-- One interval contains the value, and no other one does.
pub record Sole (below : Text → Bool) (is : List Interval) (i : Interval) : Type 0 where
  pub before : List Interval
  pub after : List Interval
  pub split : is ≡ before ++ i ∷ after
  pub inside : contains below i ≡ true
  pub none_before : All (λ j. contains below j ≡ false) before
  pub none_after : All (λ j. contains below j ≡ false) after

module _ (parse_float : Text → Option ℕ) (kind : ValueType) (below : Text → Bool)
    (less : (a b : Text) → bound_less parse_float kind a b ≡ true → below a ≡ true → below b ≡ true)
    (same : (a b : Text) → bounds_equal parse_float kind a b ≡ true → below a ≡ below b) where
  under_after :
      (lower upper : Option Text)
      → disordered parse_float kind lower upper ≡ false
      → not_under below lower ≡ false
      → under below upper ≡ true
  unfolding disordered
  under_after none upper h k = cc
  under_after (some l) none h k = refl
  under_after (some l) (some u) h k = less l u (ground (arith, h)) (ground (arith, k))

  shared-under :
      (upper lower : Option Text)
      → shared parse_float kind upper lower ≡ true
      → not_under below lower ≡ not (under below upper)
  unfolding shared
  shared-under none lower h = cc
  shared-under (some u) none h = cc
  shared-under (some u) (some l) h = ground (arith, same u l h)

  none_after_under :
      (i : Interval) (is : List Interval)
      → Chained parse_float kind i is
      → All (IsInterval parse_float kind) is
      → under below i.upper ≡ true
      → All (λ j. contains below j ≡ false) is
  unfolding Chained
  none_after_under i [] c v h = tt
  none_after_under i (next ∷ rest) (c, cs) (v, vs) h =
      let lower : not_under below next.lower ≡ false =
        shared-under i.upper next.lower c ∙ ap not h in
      (
        ground (arith, lower),
        none_after_under next rest cs vs (under_after next.lower next.upper v.ordered lower),
      )

  Sole-here :
      (i : Interval) (is : List Interval)
      → Chained parse_float kind i is
      → All (IsInterval parse_float kind) is
      → not_under below i.lower ≡ true
      → under below i.upper ≡ true
      → (j : Interval) × Sole below (i ∷ is) j
  Sole-here i is c v h on = (
    i,
    record {
      before = [];
      after = is;
      split = refl;
      inside = ground (arith, on, h);
      none_before = tt;
      none_after = none_after_under i is c v on;
    },
  )

  Sole-later :
      (i : Interval) (is : List Interval)
      → under below i.upper ≡ false
      → ((j : Interval) × Sole below is j)
      → (j : Interval) × Sole below (i ∷ is) j
  Sole-later i is off (j, s) = (
    j,
    record {
      before = i ∷ s.before;
      after = s.after;
      split = ap (λ l. i ∷ l) s.split;
      inside = s.inside;
      none_before = (ground (arith, off), s.none_before);
      none_after = s.none_after;
    },
  )

  Sole-from :
      (i : Interval) (is : List Interval)
      → Chained parse_float kind i is
      → All (IsInterval parse_float kind) is
      → last_upper parse_float i is ≡ none
      → not_under below i.lower ≡ true
      → (j : Interval) × Sole below (i ∷ is) j
  unfolding Chained last_upper
  Sole-from i [] c v last h = Sole-here i [] c v h (rw last refl)
  Sole-from i (next ∷ rest) (c, cs) (v, vs) last h = elim (Bool-cases (under below i.upper)) [
    | inl on ↦ Sole-here i (next ∷ rest) (c, cs) (v, vs) h on
    | inr off ↦
        Sole-later i (next ∷ rest) off
          (Sole-from next rest cs vs last (shared-under i.upper next.lower c ∙ ap not off))
  ]

  check_intervals-Sole :
      (is : List Interval)
      → check_intervals parse_float kind is ≡ ok tt
      → All (IsInterval parse_float kind) is × ((j : Interval) × Sole below is j)
  unfolding check_intervals
  check_intervals-Sole [] h = cc
  check_intervals-Sole (i ∷ is) h =
      let (all, h1) = >>-eq_ok (validate_intervals parse_float kind 0 (i ∷ is)) _ h in
      let (low, h2) = >>-eq_ok (fail_if (is_some i.lower) first_unbounded) _ h1 in
      let (high, h3) =
        >>-eq_ok (fail_if (is_some (last_upper parse_float i is)) last_unbounded) _ h2 in
      let valid = validate_intervals-IsInterval parse_float kind 0 (i ∷ is) all in
      (
        valid,
        Sole-from i is (check_shared-Chained parse_float kind 1 i is h3) valid.1
            (ground (arith, high)) (ground (arith, low)),
      )

  -- A valid configuration has one interval for the value, and each of its intervals is valid.
  pub validate_value-Sole :
      (config : ValueConfig)
      → validate_value parse_float config ≡ ok tt
      → config.value_type ≡ kind
      → All (IsInterval parse_float kind) config.intervals
        × ((j : Interval) × Sole below config.intervals j)
  unfolding validate_value
  validate_value-Sole config h e =
      let (_, rest) = >>-eq_ok (check_kind parse_float config.value_type) _ h in
      check_intervals-Sole config.intervals
        (subst (λ k. check_intervals parse_float k config.intervals ≡ ok tt) e rest)
