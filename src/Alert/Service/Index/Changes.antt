-- ===== src/Alert/Service/Index/Changes.antt =====
-- alert/service.go: a definition that is removed leaves the maps fitting each other, and no member more.
use go_scada.Base.{
  Text, true, false, ◌≡◌, sym, ◌∙◌, List, [], none, some, ok, Dict, lookup, remove, mem_text,
  text_eq, text_eq_iff, text_eq_refl, lookup-remove, Bool-cases, Option-cases, inl, inr, arith, ap,
}
use go_scada.Alert.Service.{Definition, unhook_all, summary_members, name_of}
use go_scada.Alert.Service.Cycles.{members_in}
use go_scada.Alert.Service.Cycles.Search.{Leads, edge, longer}
use go_scada.Alert.Service.Index.{Indexed, Acyclic, output_subject-injective, output_subject-empty}
use go_scada.Alert.Service.Index.Hooks.{unhook_all-parents}

pub Leads-mono :
    (f g : Text → List Text)
    → ((x y : Text) → mem_text y (f x) ≡ true → mem_text y (g x) ≡ true)
    → {x y : Text} → Leads f x y
    → Leads g x y
Leads-mono f g h {x} (edge {y} e) = edge (h x y e)
Leads-mono f g h (longer {y} {z} p e) = longer (Leads-mono f g h p) (h y z e)

pub nothing : (v : Text) → mem_text v [] ≡ true → ⊥
unfolding mem_text
nothing v m = cc

pub Leads-trans : {f : Text → List Text} {x y z : Text} → Leads f x y → Leads f y z → Leads f x z
Leads-trans p (edge e) = longer p e
Leads-trans p (longer q e) = longer (Leads-trans p q) e

module _ (ds : Dict Definition) (outs : Dict Text) (ps : Dict (List Text)) where
  -- The members of an output by its definition.
  pub members_in-owned :
      (x t : Text) (d : Definition)
      → lookup x outs ≡ some t
      → lookup t ds ≡ some d
      → members_in ds outs x ≡ summary_members d.config
  unfolding members_in
  members_in-owned x t d named found = ground (arith, named, found)

  -- No definition has the empty subject, which stands for a missing output.
  no_empty : Indexed ds outs ps → lookup [] ds ≡ none
  no_empty h = elim (Option-cases (lookup [] ds)) [
    | inl missing ↦ missing
    | inr (d, found) ↦ absurd (output_subject-empty d.output (h.derived [] d found))
  ]

  module _ (subject : Text) (d : Definition) (h : Indexed ds outs ps)
      (found : lookup subject ds ≡ some d) where
    pub Indexed-remove :
        Indexed
          (remove subject ds)
          (remove d.output outs)
          (unhook_all subject (summary_members d.config) ps)
    Indexed-remove = record {
      derived = λ t e k. h.derived t e (ground (arith, lookup-remove subject t ds, k));
      named = λ x t k.
          let before : lookup x outs ≡ some t = ground (arith, lookup-remove d.output x outs, k) in
          let (e, there, out) = h.named x t before in
          (
            e,
            elim (Bool-cases (text_eq subject t)) [
              | inl same ↦
                  let is : d ≡ e = ground (arith, found, there, (text_eq_iff subject t).0 same) in
                  absurd (
                    ground (
                      arith,
                      lookup-remove d.output x outs,
                      k,
                      ap (λ (c : Definition). c.output) is,
                      out,
                      text_eq_refl x,
                    ))
              | inr other ↦ ground (arith, lookup-remove subject t ds, there, other)
            ],
            out,
          );
      owned = λ t e k.
          let before : lookup t ds ≡ some e = ground (arith, lookup-remove subject t ds, k) in
          let apart : text_eq subject t ≡ false = ground (arith, lookup-remove subject t ds, k) in
          elim (Bool-cases (text_eq d.output e.output)) [
            | inl same ↦
                let one : subject ≡ t =
                  output_subject-injective subject t d.output (h.derived subject d found)
                    (h.derived t e before ∙ ap ok (sym ((text_eq_iff d.output e.output).0 same))) in
                absurd (ground (arith, apart, one, text_eq_iff subject t))
            | inr other ↦
                ground (arith, lookup-remove d.output e.output outs, h.owned t e before, other)
          ];
      hooked = λ member t.
          unhook_all-parents subject (summary_members d.config) ps member t
          ∙ (elim (Bool-cases (text_eq subject t)) [
            | inl same ↦ ground (
              arith,
              h.hooked member t,
              lookup-remove subject t ds,
              found,
              (text_eq_iff subject t).0 same,
              same,
            )
            | inr other ↦ ground (arith, h.hooked member t, lookup-remove subject t ds, other)
          ]);
    }

    -- Nothing has a member that it did not have before, and the output of the removed definition has none.
    pub members-remove :
        (x y : Text)
        → mem_text y (members_in (remove subject ds) (remove d.output outs) x) ≡ true
        → (text_eq d.output x ≡ false) × (mem_text y (members_in ds outs x) ≡ true)
    unfolding members_in mem_text
    members-remove x y m = elim (Bool-cases (text_eq d.output x)) [
      | inl same ↦ absurd (
          ground (
            arith,
            m,
            lookup-remove d.output x outs,
            same,
            lookup-remove subject [] ds,
            no_empty h,
          ))
      | inr other ↦ (
        other,
        ground (
          arith,
          m,
          lookup-remove d.output x outs,
          other,
          lookup-remove subject (name_of (lookup x outs)) ds,
        ),
      )
    ]

    pub Acyclic-remove : Acyclic ds outs → Acyclic (remove subject ds) (remove d.output outs)
    Acyclic-remove a x p = a x (
        Leads-mono (members_in (remove subject ds) (remove d.output outs)) (members_in ds outs)
          (λ u v m. (members-remove u v m).1) p)
