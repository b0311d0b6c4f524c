-- ===== src/Base/Strings.antt =====
-- Go strings as lists of code points, and what the program uses of `strings` and `strconv`.
use Prim.Native.Nat.{ℕ, ◌^◌, ◌*◌, ◌-◌, ◌+◌, zero, suc}
use Prim.Native.Char.{code}
use Prim.Native.String.{String}
use mathlib.Core.Path.{◌≡◌, refl}
use mathlib.Core.Logic.{◌↔◌, inl, inr}
use mathlib.Core.Bool.{Bool, true, false, ◌&&◌, ◌||◌}
use mathlib.Core.Option.{Option, none, some}
use mathlib.Core.List.{List, [], ◌∷◌, ◌++◌, reverse}
use native.Mathlib.Omega.{arith}
use go_scada.Base.Int.{ℤ, pos, negsuc}
use go_scada.Base.Lists.{any}
use go_scada.Base.Tests.{ltb, leb, ◌==◌, if◌then◌else◌, is_some, Bool-cases, Option-cases}

abbrev pub Text : Type 0
Text = List ℕ

-- A literal's code points.
abbrev pub codes : String → Text
codes String.[] = []
codes (String.◌∷◌ c s) = code c ∷ codes s

-- `==` on strings.
unfoldable pub text_eq : Text → Text → Bool
text_eq [] [] = true
text_eq (x ∷ xs) (y ∷ ys) = x == y && text_eq xs ys
text_eq _ _ = false

pub text_eq_refl : (s : Text) → text_eq s s ≡ true
unfolding text_eq
text_eq_refl [] = refl
text_eq_refl (x ∷ s) = ground (arith, text_eq_refl s)

pub text_eq→eq : (s t : Text) → text_eq s t ≡ true → s ≡ t
unfolding text_eq
text_eq→eq [] [] h = refl
text_eq→eq [] (y ∷ t) h = ground arith
text_eq→eq (x ∷ s) [] h = ground arith
text_eq→eq (x ∷ s) (y ∷ t) h = ground (arith, text_eq→eq s t)

pub text_eq_iff : (s t : Text) → (text_eq s t ≡ true) ↔ (s ≡ t)
text_eq_iff s t = (text_eq→eq s t, λ e. rw e (text_eq_refl t))

-- `s == ""`
abbrev pub is_empty : Text → Bool
is_empty [] = true
is_empty (_ ∷ _) = false

-- `s < t` on strings, which Go compares by bytes: the order of code points in UTF-8.
unfoldable pub text_lt : Text → Text → Bool
text_lt [] [] = false
text_lt [] (y ∷ t) = true
text_lt (x ∷ s) [] = false
text_lt (x ∷ s) (y ∷ t) = if x == y then text_lt s t else ltb x y

-- unicode.IsSpace
abbrev pub is_space : ℕ → Bool
is_space c =
    (leb 9 c && leb c 13)
    || c == 32
    || c == 0x85
    || c == 0xa0
    || c == 0x1680
    || (leb 0x2000 c && leb c 0x200a)
    || c == 0x2028
    || c == 0x2029
    || c == 0x202f
    || c == 0x205f
    || c == 0x3000

trim_left : Text → Text
trim_left [] = []
trim_left (c ∷ s) = let rest = trim_left s in if is_space c then rest else c ∷ s

-- strings.TrimSpace
unfoldable pub trim_space : Text → Text
unfolding trim_left
trim_space s = reverse (trim_left (reverse (trim_left s)))

-- What is left of `s` once the suffix is cut off, if it has it.
unfoldable pub cut_suffix : Text → Text → Option Text
unfolding text_eq
cut_suffix [] suffix = if text_eq [] suffix then some [] else none
cut_suffix (c ∷ s) suffix =
    let rest = cut_suffix s suffix in
    if text_eq (c ∷ s) suffix
    then some []
    else elim rest [ none ↦ none | some base ↦ some (c ∷ base) ]

-- strings.HasSuffix
abbrev pub has_suffix : Text → Text → Bool
has_suffix s suffix = is_some (cut_suffix s suffix)

-- strings.TrimSuffix
abbrev pub trim_suffix : Text → Text → Text
trim_suffix s suffix = elim (cut_suffix s suffix) [ none ↦ s | some base ↦ base ]

unfoldable pub cut_prefix : Text → Text → Option Text
cut_prefix s [] = some s
cut_prefix [] (p ∷ prefix) = none
cut_prefix (c ∷ s) (p ∷ prefix) = if c == p then cut_prefix s prefix else none

-- strings.HasPrefix
abbrev pub has_prefix : Text → Text → Bool
has_prefix s prefix = is_some (cut_prefix s prefix)

-- strings.TrimPrefix
abbrev pub trim_prefix : Text → Text → Text
trim_prefix s prefix = elim (cut_prefix s prefix) [ none ↦ s | some rest ↦ rest ]

-- A suffix that is found is a suffix.
pub cut_suffix-append :
    (s suffix base : Text) → cut_suffix s suffix ≡ some base → s ≡ base ++ suffix
unfolding cut_suffix
cut_suffix-append [] suffix base h = ground (arith, text_eq→eq [] suffix)
cut_suffix-append (c ∷ s) suffix base h = elim (Bool-cases (text_eq (c ∷ s) suffix)) [
  | inl same ↦ ground (arith, text_eq→eq (c ∷ s) suffix same)
  | inr other ↦ elim (Option-cases (cut_suffix s suffix)) [
    | inl missing ↦ ground arith
    | inr (rest, found) ↦ ground (arith, cut_suffix-append s suffix rest found)
  ]
]

unfoldable pub has_char : Text → ℕ → Bool
has_char [] d = false
has_char (e ∷ t) d = e == d || has_char t d

-- strings.ContainsAny
unfoldable pub contains_any : Text → Text → Bool
unfolding has_char
contains_any [] chars = false
contains_any (c ∷ s) chars = has_char chars c || contains_any s chars

-- strings.Split on a one-character separator: the first token and the others.
unfoldable pub split_on : ℕ → Text → Text × List Text
split_on sep [] = ([], [])
split_on sep (c ∷ s) =
    let (token, others) = split_on sep s in
    if c == sep then ([], token ∷ others) else (c ∷ token, others)

-- Whether the text is among the texts.
unfoldable pub mem_text : Text → List Text → Bool
mem_text s [] = false
mem_text s (t ∷ ts) = text_eq t s || mem_text s ts

pub mem_text-middle : (s : Text) (xs ys : List Text) → mem_text s (xs ++ s ∷ ys) ≡ true
unfolding mem_text
mem_text-middle s [] ys = rw (text_eq_refl)
mem_text-middle s (x ∷ xs) ys = ground (arith, mem_text-middle s xs ys)

-- The decimal number of a text of digits, after the ones read.
parse_digits : ℕ → Text → Option ℕ
parse_digits n [] = some n
parse_digits n (c ∷ s) =
    if leb b'0' c && leb c b'9' then parse_digits (n * 10 + (c - b'0')) s else none

parse_unsigned : Text → Option ℕ
unfolding parse_digits
parse_unsigned [] = none
parse_unsigned (c ∷ s) = parse_digits 0 (c ∷ s)

at_most : ℕ → Option ℕ → Option ℕ
at_most limit none = none
at_most limit (some n) = if leb n limit then some n else none

to_negative : ℕ → ℤ
to_negative zero = pos 0
to_negative (suc n) = negsuc n

signed_int : ℕ → Text → Option ℤ
signed_int sign s =
    if sign == b'-'
    then elim (at_most (2 ^ 63) (parse_unsigned s)) [ none ↦ none | some n ↦ some (to_negative n) ]
    else elim (at_most (2 ^ 63 - 1) (parse_unsigned s)) [ none ↦ none | some n ↦ some (pos n) ]

-- strconv.ParseInt(s, 10, 64), with `none` for a syntax or range error.
unfoldable pub parse_int64 : Text → Option ℤ
unfolding parse_unsigned at_most to_negative signed_int
parse_int64 [] = none
parse_int64 (c ∷ s) = if c == b'-' || c == b'+' then signed_int c s else signed_int b'+' (c ∷ s)

-- A text begins with a prefix exactly if it is the prefix and what is cut.
pub text_eq-cut_prefix :
    (s prefix rest : Text)
    → text_eq s (prefix ++ rest)
      ≡ elim (cut_prefix s prefix) [ none ↦ false | some cut ↦ text_eq cut rest ]
unfolding text_eq cut_prefix
text_eq-cut_prefix [] [] rest = refl
text_eq-cut_prefix (c ∷ s) [] rest = refl
text_eq-cut_prefix [] (p ∷ prefix) rest = refl
text_eq-cut_prefix (c ∷ s) (p ∷ prefix) rest = ground (arith, text_eq-cut_prefix s prefix rest)

pub mem_text-any : (s : Text) (ts : List Text) → mem_text s ts ≡ any (λ t. text_eq t s) ts
unfolding mem_text
mem_text-any s [] = refl
mem_text-any s (t ∷ ts) = ground (arith, mem_text-any s ts)

pub text_lt_asym : (s t : Text) → text_lt s t ≡ true → text_lt t s ≡ false
unfolding text_lt
text_lt_asym [] [] h = refl
text_lt_asym [] (y ∷ t) h = refl
text_lt_asym (x ∷ s) [] h = cc
text_lt_asym (x ∷ s) (y ∷ t) h = ground (arith, text_lt_asym s t, h)

pub text_le_trans : (s t u : Text) → text_lt t s ≡ false → text_lt u t ≡ false → text_lt u s ≡ false
unfolding text_lt
text_le_trans [] t [] h k = refl
text_le_trans [] t (z ∷ u) h k = refl
text_le_trans (x ∷ s) [] u h k = cc
text_le_trans (x ∷ s) (y ∷ t) [] h k = cc
text_le_trans (x ∷ s) (y ∷ t) (z ∷ u) h k = ground (arith, text_le_trans s t u, h, k)

pub mem_text-append :
    (s : Text) (xs ys : List Text) → mem_text s (xs ++ ys) ≡ (mem_text s xs || mem_text s ys)
unfolding mem_text
mem_text-append s [] ys = refl
mem_text-append s (x ∷ xs) ys = ground (arith, mem_text-append s xs ys)

-- No text occurs twice.
abbrev pub Distinct : List Text → Type 0
Distinct [] = Unit
Distinct (x ∷ xs) = (mem_text x xs ≡ false) × Distinct xs
