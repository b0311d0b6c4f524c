-- ===== src/Stream/Subjects.antt =====
-- stream/client.go: full and relative subjects, and the checks of subjects and prefixes.
use go_scada.Base.{
  Text, Bool, ◌||◌, ◌≡◌, refl, [], ◌∷◌, ◌++◌, Option, none, some, Result, ok, codes, is_empty,
  if◌then◌else◌, trim_space, trim_suffix, has_prefix, has_suffix, cut_prefix, contains_any, fail_if,
  ◌>>◌, arith, ==_iff,
}

pub data SubjectError : Type 0 where
  subject_required prefix_required : SubjectError
  prefix_invalid : Text → SubjectError

-- validateOperation, which gives the full subject; the client is not nil.
unfoldable pub validate_operation : Text → Text → Result SubjectError Text
validate_operation system subject = do
  fail_if (is_empty (trim_space subject)) subject_required
  ok (system ++ codes "." ++ trim_space subject)

-- A relative subject that is not empty.
unfoldable pub nonempty : Option Text → Option Text
nonempty none = none
nonempty (some relative) = if is_empty relative then none else some relative

-- relativeSubject
unfoldable pub relative_subject : Text → Text → Option Text
unfolding nonempty
relative_subject system subject = nonempty (cut_prefix subject (system ++ codes "."))

-- strings.Contains
contains : Text → Text → Bool
contains [] part = is_empty part
contains (c ∷ s) part = has_prefix (c ∷ s) part || contains s part

-- validatePrefix, which gives the prefix with its final dot, and the filter.
unfoldable pub validate_prefix : Text → Text → Result SubjectError (Text × Text)
unfolding contains
validate_prefix system prefix = do
  fail_if (is_empty (trim_space prefix)) prefix_required
  let name : Text = trim_suffix (trim_space prefix) (codes ".")
  fail_if
      (is_empty name
        || has_prefix name (codes ".")
        || has_suffix name (codes ".")
        || contains name (codes "..")
        || contains_any name (codes "*> \t\r\n"))
      (prefix_invalid name)
  ok (name ++ codes ".", system ++ codes "." ++ name ++ codes ".>")

pub cut_prefix-append : (p r : Text) → cut_prefix (p ++ r) p ≡ some r
unfolding cut_prefix
cut_prefix-append [] [] = refl
cut_prefix-append [] (c ∷ r) = refl
cut_prefix-append (c ∷ p) r = ground (arith, ==_iff c c, cut_prefix-append p r)
