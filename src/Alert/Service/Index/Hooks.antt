-- ===== src/Alert/Service/Index/Hooks.antt =====
-- alert/service.go: what hookParentsLocked and unhookParentsLocked do to the parents of a member.
use go_scada.Base.{
  Text, not, ◌&&◌, ◌||◌, ◌≡◌, refl, ◌∙◌, List, [], ◌∷◌, ◌++◌, Dict, insert, mem_text,
  mem_text-append, text_eq, text_eq_iff, lookup-insert, lookup-remove, Bool-cases, inl, inr, arith,
  if◌then◌else◌,
}
use go_scada.Alert.Service.{parents_of, hook_all, unhook_all, put_parents, remove_string}

mem_text-remove_string :
    (t u : Text) (values : List Text)
    → mem_text t (remove_string values u) ≡ (mem_text t values && not (text_eq u t))
unfolding remove_string mem_text
mem_text-remove_string t u [] = refl
mem_text-remove_string t u (v ∷ values) =
    ground
      (arith, mem_text-remove_string t u values, text_eq_iff v u, text_eq_iff v t, text_eq_iff u t)

parents_of-insert :
    (m member : Text) (xs : List Text) (ps : Dict (List Text))
    → parents_of m (insert member xs ps) ≡ (if text_eq member m then xs else parents_of m ps)
parents_of-insert m member xs ps = ground (arith, lookup-insert member m xs ps)

parents_of-put :
    (m member : Text) (xs : List Text) (ps : Dict (List Text))
    → parents_of m (put_parents member xs ps) ≡ (if text_eq member m then xs else parents_of m ps)
unfolding put_parents
parents_of-put m member [] ps = ground (arith, lookup-remove member m ps)
parents_of-put m member (x ∷ xs) ps = parents_of-insert m member (x ∷ xs) ps

pub hook_all-parents :
    (subject : Text) (members : List Text) (ps : Dict (List Text)) (m t : Text)
    → mem_text t (parents_of m (hook_all subject members ps))
      ≡ (mem_text t (parents_of m ps) || (text_eq subject t && mem_text m members))
unfolding hook_all mem_text
hook_all-parents subject [] ps m t = ground arith
hook_all-parents subject (member ∷ members) ps m t =
    let ps' = insert member (parents_of member ps ++ subject ∷ []) ps in
    hook_all-parents subject members ps' m t ∙ (elim (Bool-cases (text_eq member m)) [
      | inl same ↦ ground (
        arith,
        parents_of-insert m member (parents_of member ps ++ subject ∷ []) ps,
        same,
        (text_eq_iff member m).0 same,
        mem_text-append t (parents_of member ps) (subject ∷ []),
      )
      | inr other ↦
          ground
            (arith, parents_of-insert m member (parents_of member ps ++ subject ∷ []) ps, other)
    ])

pub unhook_all-parents :
    (subject : Text) (members : List Text) (ps : Dict (List Text)) (m t : Text)
    → mem_text t (parents_of m (unhook_all subject members ps))
      ≡ (mem_text t (parents_of m ps) && not (text_eq subject t && mem_text m members))
unfolding unhook_all mem_text
unhook_all-parents subject [] ps m t = ground arith
unhook_all-parents subject (member ∷ members) ps m t =
    let kept = remove_string (parents_of member ps) subject in
    unhook_all-parents subject members (put_parents member kept ps) m t
    ∙ (elim (Bool-cases (text_eq member m)) [
      | inl same ↦ ground (
        arith,
        parents_of-put m member kept ps,
        same,
        (text_eq_iff member m).0 same,
        mem_text-remove_string t subject (parents_of member ps),
      )
      | inr other ↦ ground (arith, parents_of-put m member kept ps, other)
    ])
