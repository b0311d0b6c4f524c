-- ===== src/Alert/Service/Index.antt =====
-- alert/service.go: the maps `definitions`, `byOutput` and `parents` fit each other.
pub mod Hooks
pub mod Changes
pub mod Adding
pub mod Configured
pub mod Kept
pub mod Containing
use go_scada.Base.{
  Text, Bool, true, false, ◌≡◌, refl, sym, ◌∙◌, List, [], ◌∷◌, ◌++◌, Option, none, some, ok, err,
  Dict, lookup, mem_text, ap, >>=-eq_ok, >>-eq_ok, ok-injective, cut_suffix, cut_suffix-append,
  trim_suffix, Option-cases, inl, inr, arith, fail_if, text_eq, is_empty, ◌||◌, text_eq_refl,
  append_cancel_right, subst, trim_space,
}
use go_scada.Alert.Model.{config_suffix, alert_suffix}
use go_scada.Alert.Protocol.{
  AlertError, input_subject, output_subject, validate_subject, config_subject,
}
use go_scada.Alert.Service.{Definition, Service, parents_of, summary_members, name_of}
use go_scada.Alert.Service.Cycles.{members_in}
use go_scada.Alert.Service.Cycles.Search.{Leads}

-- The subject has a summary with the member.
abbrev pub has_member : Option Definition → Text → Bool
has_member none member = false
has_member (some d) member = mem_text member (summary_members d.config)

-- The output of a definition is OutputSubject of its subject; `byOutput` has exactly the outputs of the
-- definitions, with their subjects; and the parents of a member are the summaries that have it.
pub record Indexed (ds : Dict Definition) (outs : Dict Text) (ps : Dict (List Text)) : Type 0 where
  pub derived : (t : Text) (d : Definition) → lookup t ds ≡ some d → output_subject t ≡ ok d.output
  pub named :
      (x t : Text)
      → lookup x outs ≡ some t
      → (d : Definition) × (lookup t ds ≡ some d) × (d.output ≡ x)
  pub owned : (t : Text) (d : Definition) → lookup t ds ≡ some d → lookup d.output outs ≡ some t
  pub hooked :
      (member t : Text) → mem_text t (parents_of member ps) ≡ has_member (lookup t ds) member

-- No summary contains itself, directly or through others.
abbrev pub Acyclic : Dict Definition → Dict Text → Type 0
Acyclic ds outs = (x : Text) → Leads (members_in ds outs) x x → ⊥

abbrev pub IsIndexed : Service → Type 0
IsIndexed s = Indexed s.definitions s.by_output s.parents × Acyclic s.definitions s.by_output

-- InputSubject gives what stands before the suffix.
input_subject-append :
    (subject base : Text) → input_subject subject ≡ ok base → subject ≡ base ++ config_suffix
unfolding input_subject
input_subject-append subject base h =
    let (_, rest) = >>-eq_ok (validate_subject subject) _ h in
    let (kept, same) =
      >>-eq_ok
        (fail_if
          (text_eq (trim_suffix subject config_suffix) subject
            || is_empty (trim_suffix subject config_suffix))
          config_subject)
        (ok (trim_suffix subject config_suffix)) rest in
    elim (Option-cases (cut_suffix subject config_suffix)) [
      | inl missing ↦ absurd (ground (arith, kept, missing, text_eq_refl subject))
      | inr (found, e) ↦
          let is : found ≡ base = ground (arith, ok-injective same, e) in
          cut_suffix-append subject config_suffix found e ∙ ap (λ b. b ++ config_suffix) is
    ]

-- Two configurations have different outputs.
pub output_subject-injective :
    (t u o : Text) → output_subject t ≡ ok o → output_subject u ≡ ok o → t ≡ u
unfolding output_subject
output_subject-injective t u o h k =
    let (a, input_t, out_t) = >>=-eq_ok (input_subject t) _ h in
    let (b, input_u, out_u) = >>=-eq_ok (input_subject u) _ k in
    let same : a ≡ b =
      append_cancel_right a b alert_suffix (ok-injective out_t ∙ sym (ok-injective out_u)) in
    input_subject-append t a input_t
    ∙ ap (λ base. base ++ config_suffix) same
    ∙ sym (input_subject-append u b input_u)

-- No configuration has the empty subject.
pub output_subject-empty : (o : Text) → output_subject [] ≡ ok o → ⊥
unfolding output_subject input_subject validate_subject trim_space
output_subject-empty o h = cc

pub mem-members_in :
    (ds : Dict Definition) (outs : Dict Text) (x y : Text)
    → mem_text y (members_in ds outs x) ≡ has_member (lookup (name_of (lookup x outs)) ds) y
unfolding members_in mem_text
mem-members_in ds outs x y = elim (Option-cases (lookup (name_of (lookup x outs)) ds)) [
  | inl missing ↦ ground (arith, missing)
  | inr (d, found) ↦ ground (arith, found)
]
