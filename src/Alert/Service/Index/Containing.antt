-- ===== src/Alert/Service/Index/Containing.antt =====
-- alert/service.go: which summaries evaluateAncestorsLocked evaluates in a running service.
use go_scada.Base.{
  Text, true, ◌≡◌, sym, ◌∙◌, Option, none, some, Dict, lookup, mem_text, List, subst, refl,
}
use go_scada.Alert.Service.{Definition, Service}
use go_scada.Alert.Service.Ancestors.{parents_above}
use go_scada.Alert.Service.Ancestors.Reaching.{Above, parent, further}
use go_scada.Alert.Service.Index.{Indexed, has_member}

-- The configurations of the summaries that contain an output: it is a member, or the output of one that
-- contains it is.
pub data Contains (ds : Dict Definition) (output : Text) : Text → Type 0 where
  direct : {t : Text} → has_member (lookup t ds) output ≡ true → Contains ds output t
  through :
      {t u : Text} {d : Definition}
      → Contains ds output t
      → lookup t ds ≡ some d
      → has_member (lookup u ds) d.output ≡ true
      → Contains ds output u

module _ (ds : Dict Definition) (outs : Dict Text) (ps : Dict (List Text))
    (h : Indexed ds outs ps) where
  of_parents :
      (o : Option Definition) (u : Text)
      → mem_text u (parents_above o ps) ≡ true
      → (d : Definition) × (o ≡ some d) × (has_member (lookup u ds) d.output ≡ true)
  unfolding mem_text
  of_parents none u m = absurd cc
  of_parents (some d) u m = (d, refl, sym (h.hooked d.output u) ∙ m)

  pub Above→Contains : {output t : Text} → Above ds ps output t → Contains ds output t
  Above→Contains {output} (parent {t} m) = direct (sym (h.hooked output t) ∙ m)
  Above→Contains {output} (further {t} {u} a m) =
      let (d, found, has) = of_parents (lookup t ds) u m in through (Above→Contains a) found has

  pub Contains→Above : {output t : Text} → Contains ds output t → Above ds ps output t
  Contains→Above {output} (direct {t} m) = parent (h.hooked output t ∙ m)
  Contains→Above {output} (through {t} {u} {d} c found has) =
      further (Contains→Above c) (
        subst (λ o. mem_text u (parents_above o ps) ≡ true) (sym found) (h.hooked d.output u ∙ has))
