-- ===== src/Alert/Evaluator/Intervals.antt =====
-- EvaluateInt64, EvaluateFloat64 and EvaluateValue in alert/evaluator.go: the interval they find.
pub mod Floats
use go_scada.Base.{
  ℕ, ℤ, Text, Bool, true, false, not, ◌≡◌, List, [], ◌∷◌, ◌++◌, Option, none, some, is_some, Result,
  ok, All, All-split, arith, refl, subst, ap, Dict, parse_int64, ◌<ℤ◌, <ℤ_trans, ==ℤ_iff,
}
use go_scada.Float.{float_lt}
use go_scada.Alert.Model.{int64, Interval, Properties}
use go_scada.Alert.Protocol.{AlertError, not_int64}
use go_scada.Alert.Validation.{parse_bound, bound_less, bounds_equal, int_less, int_equal}
use go_scada.Alert.Validation.Cover.{IsInterval, Sole, contains, not_under, under}
use go_scada.Alert.Evaluator.{
  first_interval, evaluation_for_interval, int_lower_contains, int_upper_contains, test_bound,
}

-- The tests of a value decide whether it lies below a bound.
pub record Tests (below : Text → Bool) (lower upper : Option Text → Result AlertError Bool)
    (i : Interval) : Type 0 where
  pub low : lower i.lower ≡ ok (not_under below i.lower)
  pub high : upper i.upper ≡ ok (under below i.upper)

first_interval-skip :
    (below : Text → Bool) (lower upper : Option Text → Result AlertError Bool)
    (before rest : List Interval) (properties : Dict Properties)
    → All (Tests below lower upper) before
    → All (λ j. contains below j ≡ false) before
    → first_interval lower upper (before ++ rest) properties
      ≡ first_interval lower upper rest properties
unfolding first_interval
first_interval-skip below lower upper [] rest properties t h = refl
first_interval-skip below lower upper (i ∷ is) rest properties (t, ts) (h, hs) =
    rw (t.low, t.high, h, first_interval-skip below lower upper is rest properties ts hs) refl

pub first_interval-Sole :
    (below : Text → Bool) (lower upper : Option Text → Result AlertError Bool) (is : List Interval)
    (j : Interval) (properties : Dict Properties)
    → All (Tests below lower upper) is
    → Sole below is j
    → first_interval lower upper is properties ≡ evaluation_for_interval j properties
unfolding first_interval
first_interval-Sole below lower upper is j properties t s =
    let (t1, t2) =
      All-split (Tests below lower upper) s.before (j ∷ s.after)
        (subst (All (Tests below lower upper)) s.split t) in
    rw
      (
        s.split,
        first_interval-skip below lower upper s.before (j ∷ s.after) properties t1 s.none_before,
        t2.0.low,
        t2.0.high,
        s.inside,
      )
      refl

-- `value < bound` for a bound that parses.
abbrev pub below_bound : {A : Type 0} → (A → Bool) → Option A → Bool
below_bound test none = false
below_bound test (some bound) = test bound

pub low_parsed :
    {A : Type 0} (e : AlertError) (f : A → Bool) (o : Option A)
    → is_some o ≡ true
    → test_bound e (λ x. not (f x)) o ≡ ok (not (below_bound f o))
unfolding test_bound
low_parsed e f none h = cc
low_parsed e f (some x) h = refl

pub high_parsed :
    {A : Type 0} (e : AlertError) (f : A → Bool) (o : Option A)
    → is_some o ≡ true
    → test_bound e f o ≡ ok (below_bound f o)
unfolding test_bound
high_parsed e f none h = cc
high_parsed e f (some x) h = refl

abbrev pub int_below : ℤ → Text → Bool
int_below n bound = below_bound (λ high. n <ℤ high) (parse_int64 bound)

abbrev pub float_below : (Text → Option ℕ) → ℕ → Text → Bool
float_below parse_float b bound = below_bound (λ high. float_lt b high) (parse_float bound)

module _ (parse_float : Text → Option ℕ) where
  pub int_below-less :
      (n : ℤ) (a b : Text)
      → bound_less parse_float int64 a b ≡ true
      → int_below n a ≡ true
      → int_below n b ≡ true
  unfolding bound_less int_less
  int_below-less n a b h k = less (parse_int64 a) (parse_int64 b) h k
    where
      less :
          (x y : Option ℤ)
          → int_less parse_float x y ≡ true
          → below_bound (λ high. n <ℤ high) x ≡ true
          → below_bound (λ high. n <ℤ high) y ≡ true
      less none y h k = cc
      less (some x) none h k = cc
      less (some x) (some y) h k = <ℤ_trans n x y k h

  pub int_below-same :
      (n : ℤ) (a b : Text)
      → bounds_equal parse_float int64 a b ≡ true
      → int_below n a ≡ int_below n b
  unfolding bounds_equal int_equal
  int_below-same n a b h = same (parse_int64 a) (parse_int64 b) h
    where
      same :
          (x y : Option ℤ)
          → int_equal parse_float x y ≡ true
          → below_bound (λ high. n <ℤ high) x ≡ below_bound (λ high. n <ℤ high) y
      same none y h = cc
      same (some x) none h = cc
      same (some x) (some y) h = ap (λ z. n <ℤ z) ((==ℤ_iff x y).0 h)

  pub int_below-Tests :
      (n : ℤ) (i : Interval)
      → IsInterval parse_float int64 i
      → Tests (int_below n) (λ b. int_lower_contains b n) (λ b. int_upper_contains b n) i
  unfolding int_lower_contains int_upper_contains parse_bound
  int_below-Tests n i v = record {
    low = low i.lower v.lower_parses;
    high = high i.upper v.upper_parses;
  }
    where
      low :
          (b : Option Text)
          → parse_bound parse_float int64 b ≡ ok tt
          → int_lower_contains b n ≡ ok (not_under (int_below n) b)
      low none h = refl
      low (some b) h = low_parsed not_int64 (λ x. n <ℤ x) (parse_int64 b) (ground (arith, h))

      high :
          (b : Option Text)
          → parse_bound parse_float int64 b ≡ ok tt
          → int_upper_contains b n ≡ ok (under (int_below n) b)
      high none h = refl
      high (some b) h = high_parsed not_int64 (λ x. n <ℤ x) (parse_int64 b) (ground (arith, h))
