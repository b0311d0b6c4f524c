-- ===== src/Float/Order.antt =====
-- Go's order of float64 values is one, on values that are not NaN.
use go_scada.Base.{
  ℕ, ◌^◌, ◌<◌, Bool, true, false, not, ◌||◌, ◌≡◌, arith, ◌==◌, if◌then◌else◌, ltb, ◌&&◌, refl, sym,
  ap, ◌∙◌, ap₂, inl, inr, ◌⊎◌, Bool-cases,
}
use go_scada.Float.{is_nan, float_lt, float_eq, float_ge, sign64, magnitude}

-- The order on signs and magnitudes.
abbrev signed_lt : Bool → ℕ → Bool → ℕ → Bool
signed_lt true a true b = ltb a b
signed_lt true a false b = false
signed_lt false a true b = not (a == 0 && b == 0)
signed_lt false a false b = ltb b a

signed_lt_trans :
    (sa sb sc : Bool) (a b c : ℕ)
    → signed_lt sa a sb b ≡ true
    → signed_lt sb b sc c ≡ true
    → signed_lt sa a sc c ≡ true
signed_lt_trans true true true a b c h k = ground arith
signed_lt_trans true true false a b c h k = cc
signed_lt_trans true false sc a b c h k = cc
signed_lt_trans false true true a b c h k = ground arith
signed_lt_trans false true false a b c h k = cc
signed_lt_trans false false true a b c h k = ground arith
signed_lt_trans false false false a b c h k = ground arith

signed_lt_zero :
    (sa sb sc : Bool) (a b c : ℕ) → b ≡ 0 → c ≡ 0 → signed_lt sa a sb b ≡ signed_lt sa a sc c
signed_lt_zero true true true a b c h k = rw (h, k) refl
signed_lt_zero true true false a b c h k = ground arith
signed_lt_zero true false true a b c h k = ground arith
signed_lt_zero true false false a b c h k = refl
signed_lt_zero false true true a b c h k = rw (h, k) refl
signed_lt_zero false true false a b c h k = ground arith
signed_lt_zero false false true a b c h k = ground arith
signed_lt_zero false false false a b c h k = rw (h, k) refl

-- float_lt compares signs and magnitudes.
tested : Bool → Bool → Bool → Bool
tested na nb r = not na && not nb && r

by_signs :
    (sa sb : Bool) (a b : ℕ)
    → (if sa then sb && ltb a b else if sb then not (a == 0 && b == 0) else ltb b a)
      ≡ signed_lt sa a sb b
by_signs true true a b = refl
by_signs true false a b = refl
by_signs false true a b = refl
by_signs false false a b = refl

float_lt-signed :
    (a b : ℕ)
    → float_lt a b
      ≡ tested
          (is_nan a)
          (is_nan b)
          (signed_lt (sign64 a == 0) (magnitude a) (sign64 b == 0) (magnitude b))
unfolding float_lt tested
float_lt-signed a b =
    ap (λ r. not (is_nan a) && not (is_nan b) && r)
      (by_signs (sign64 a == 0) (sign64 b == 0) (magnitude a) (magnitude b))

tested_trans :
    (na nb nc r s t : Bool)
    → (r ≡ true → s ≡ true → t ≡ true)
    → tested na nb r ≡ true
    → tested nb nc s ≡ true
    → tested na nc t ≡ true
unfolding tested
tested_trans na nb nc r s t f h k = ground (arith, f)

pub float_lt_trans : (a b c : ℕ) → float_lt a b ≡ true → float_lt b c ≡ true → float_lt a c ≡ true
float_lt_trans a b c h k =
    float_lt-signed a c
    ∙ tested_trans (is_nan a) (is_nan b) (is_nan c) _ _ _
        (signed_lt_trans (sign64 a == 0) (sign64 b == 0) (sign64 c == 0) (magnitude a) (magnitude b)
          (magnitude c))
        (sym (float_lt-signed a b) ∙ h) (sym (float_lt-signed b c) ∙ k)

pub float_lt-eq : (a b c : ℕ) → float_eq b c ≡ true → float_lt a b ≡ float_lt a c
unfolding float_eq
float_lt-eq a b c h = elim (same_or_zero (is_nan b) (is_nan c) b c (magnitude b) (magnitude c) h) [
  | inl e ↦ ap (float_lt a) e
  | inr (nb, nc, zb, zc) ↦
      float_lt-signed a b
      ∙ ap₂ (tested (is_nan a)) (nb ∙ sym nc) (
          signed_lt_zero (sign64 a == 0) (sign64 b == 0) (sign64 c == 0) (magnitude a) (magnitude b)
            (magnitude c) zb zc)
      ∙ sym (float_lt-signed a c)
]
  where
    same_or_zero :
        (nb nc : Bool) (b c mb mc : ℕ)
        → (not nb && not nc && (b == c || (mb == 0 && mc == 0))) ≡ true
        → (b ≡ c) ⊎ ((nb ≡ false) × (nc ≡ false) × (mb ≡ 0) × (mc ≡ 0))
    same_or_zero nb nc b c mb mc h = elim (Bool-cases (b == c)) [
      | inl e ↦ inl (ground arith)
      | inr e ↦ inr (ground arith)
    ]

same_bits :
    (a b : ℕ)
    → a < 2 ^ 64
    → b < 2 ^ 64
    → (sign64 a == 0) ≡ (sign64 b == 0)
    → magnitude a ≡ magnitude b
    → a ≡ b
unfolding sign64 magnitude
same_bits a b h k s m = ground arith

pub float_ge-lt :
    (a b : ℕ)
    → a < 2 ^ 64
    → b < 2 ^ 64
    → is_nan a ≡ false
    → is_nan b ≡ false
    → float_ge a b ≡ not (float_lt a b)
unfolding float_ge float_lt float_eq
float_ge-lt a b h k na nb = ground (arith, same_bits a b h k)
