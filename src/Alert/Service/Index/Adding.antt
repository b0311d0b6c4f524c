-- ===== src/Alert/Service/Index/Adding.antt =====
-- alert/service.go: a definition that is stored leaves the maps fitting each other, and makes no cycle but
-- one through its own output.
use go_scada.Base.{
  Text, true, false, ◌≡◌, refl, sym, ◌∙◌, List, [], none, some, ok, Dict, lookup, insert, remove,
  mem_text, text_eq, text_eq_iff, text_eq_refl, lookup-insert, Bool-cases, Option-cases, inl, inr,
  arith, subst, ◌⊎◌, ap,
}
use go_scada.Alert.Protocol.{output_subject}
use go_scada.Alert.Service.{Definition, hook_all, summary_members}
use go_scada.Alert.Service.Cycles.{members_in}
use go_scada.Alert.Service.Cycles.Search.{Leads, edge, longer, HasCycle}
use go_scada.Alert.Service.Index.{Indexed, Acyclic, output_subject-injective, output_subject-empty}
use go_scada.Alert.Service.Index.Hooks.{hook_all-parents}
use go_scada.Alert.Service.Index.Changes.{
  Leads-mono, Leads-trans, nothing, members_in-owned, members-remove,
}

module _ (ds : Dict Definition) (outs : Dict Text) (ps : Dict (List Text)) (subject : Text)
    (d : Definition) (h : Indexed ds outs ps) (new : lookup subject ds ≡ none)
    (out : output_subject subject ≡ ok d.output) where
  abbrev ds_with : Dict Definition
  ds_with = insert subject d ds

  abbrev outs_with : Dict Text
  outs_with = insert d.output subject outs

  pub Indexed-insert :
      Indexed
        (insert subject d ds)
        (insert d.output subject outs)
        (hook_all subject (summary_members d.config) ps)
  Indexed-insert = record {
    derived = λ t e k. elim (Bool-cases (text_eq subject t)) [
      | inl same ↦
          let is : d ≡ e = ground (arith, lookup-insert subject t d ds, k, same) in
          ground (arith, out, (text_eq_iff subject t).0 same, ap (λ (c : Definition). c.output) is)
      | inr other ↦ h.derived t e (ground (arith, lookup-insert subject t d ds, k, other))
    ];
    named = λ x t k. elim (Bool-cases (text_eq d.output x)) [
      | inl same ↦
          let is : subject ≡ t = ground (arith, lookup-insert d.output x subject outs, k, same) in
          (
            d,
            ground (arith, lookup-insert subject t d ds, is, text_eq_refl t),
            (text_eq_iff d.output x).0 same,
          )
      | inr other ↦
          let (e, there, goes) =
            h.named x t (ground (arith, lookup-insert d.output x subject outs, k, other)) in
          (e, ground (arith, lookup-insert subject t d ds, there, new, text_eq_iff subject t), goes)
    ];
    owned = λ t e k. elim (Bool-cases (text_eq subject t)) [
      | inl same ↦
          let is : d ≡ e = ground (arith, lookup-insert subject t d ds, k, same) in
          ground (
            arith,
            lookup-insert d.output e.output subject outs,
            ap (λ (c : Definition). c.output) is,
            text_eq_iff d.output e.output,
            (text_eq_iff subject t).0 same,
          )
      | inr other ↦
          let before : lookup t ds ≡ some e =
            ground (arith, lookup-insert subject t d ds, k, other) in
          elim (Bool-cases (text_eq d.output e.output)) [
            | inl same ↦
                let one : subject ≡ t =
                  output_subject-injective subject t d.output out
                    (h.derived t e before ∙ ap ok (sym ((text_eq_iff d.output e.output).0 same))) in
                absurd (ground (arith, other, one, text_eq_iff subject t))
            | inr apart ↦
                ground
                  (arith, lookup-insert d.output e.output subject outs, h.owned t e before, apart)
          ]
    ];
    hooked = λ member t.
        hook_all-parents subject (summary_members d.config) ps member t
        ∙ (elim (Bool-cases (text_eq subject t)) [
          | inl same ↦ ground (
            arith,
            h.hooked member t,
            lookup-insert subject t d ds,
            new,
            (text_eq_iff subject t).0 same,
            same,
          )
          | inr other ↦ ground (arith, h.hooked member t, lookup-insert subject t d ds, other)
        ]);
  }

  -- Only the output of the new definition has other members than before.
  members-insert :
      (x : Text)
      → text_eq d.output x ≡ false
      → members_in (insert subject d ds) (insert d.output subject outs) x ≡ members_in ds outs x
  unfolding members_in
  members-insert x other = elim (Option-cases (lookup x outs)) [
    | inl missing ↦ ground (
      arith,
      missing,
      lookup-insert d.output x subject outs,
      other,
      lookup-insert subject [] d ds,
      (text_eq_iff subject []).0,
      no_subject,
    )
    | inr (t, is) ↦
        let (e, there, _) = h.named x t is in
        ground (
          arith,
          is,
          lookup-insert d.output x subject outs,
          other,
          lookup-insert subject t d ds,
          (text_eq_iff subject t).0,
          there,
          new,
        )
  ]
    where
      no_subject : subject ≡ [] → ⊥
      no_subject e =
          output_subject-empty d.output (subst (λ t. output_subject t ≡ ok d.output) e out)

  members-inserted :
      members_in (insert subject d ds) (insert d.output subject outs) d.output
      ≡ summary_members d.config
  members-inserted =
      members_in-owned (insert subject d ds) (insert d.output subject outs) ps d.output subject d
        (ground (arith, lookup-insert d.output d.output subject outs, text_eq_refl d.output))
        (ground (arith, lookup-insert subject subject d ds, text_eq_refl subject))

  abbrev with_it : Text → List Text
  with_it = members_in (insert subject d ds) (insert d.output subject outs)

  -- A path is one of before, or goes through the output of the new definition.
  Leads-split :
      {x y : Text}
      → Leads with_it x y
      → Leads (members_in ds outs) x y
        ⊎ ((x ≡ d.output) ⊎ Leads with_it x d.output) × Leads with_it d.output y
  Leads-split {x} (edge {y} e) = elim (Bool-cases (text_eq d.output x)) [
    | inl same ↦
        let is = (text_eq_iff d.output x).0 same in
        inr (inl (sym is), subst (λ u. Leads with_it u y) (sym is) (edge e))
    | inr other ↦ inl (edge (subst (λ ms. mem_text y ms ≡ true) (members-insert x other) e))
  ]
  Leads-split {x} (longer {y} {z} p e) = elim (Leads-split p) [
    | inl old ↦ elim (Bool-cases (text_eq d.output y)) [
      | inl same ↦
          let is = (text_eq_iff d.output y).0 same in
          inr (
            inr (subst (Leads with_it x) (sym is) p),
            subst (λ u. Leads with_it u z) (sym is) (edge e),
          )
      | inr other ↦ inl (longer old (subst (λ ms. mem_text z ms ≡ true) (members-insert y other) e))
    ]
    | inr (comes, goes) ↦ inr (comes, longer goes e)
  ]

  pub Acyclic-insert :
      Acyclic ds outs
      → (HasCycle (members_in (insert subject d ds) (insert d.output subject outs)) d.output → ⊥)
      → Acyclic (insert subject d ds) (insert d.output subject outs)
  Acyclic-insert a none_found x p = elim (Leads-split p) [
    | inl old ↦ a x old
    | inr (comes, goes) ↦ none_found (record {
      on = d.output;
      reached = inl refl;
      around = elim comes [
        | inl same ↦ subst (Leads with_it d.output) same goes
        | inr path ↦ Leads-trans goes path
      ];
    })
  ]

  pub Acyclic-plain :
      Acyclic ds outs
      → summary_members d.config ≡ []
      → Acyclic (insert subject d ds) (insert d.output subject outs)
  Acyclic-plain a plain x p = a x (Leads-mono with_it (members_in ds outs) kept p)
    where
      kept : (u v : Text) → mem_text v (with_it u) ≡ true → mem_text v (members_in ds outs u) ≡ true
      kept u v m = elim (Bool-cases (text_eq d.output u)) [
        | inl same ↦ absurd (
            nothing v (
              subst (λ ms. mem_text v ms ≡ true)
                (ap with_it (sym ((text_eq_iff d.output u).0 same)) ∙ members-inserted ∙ plain) m))
        | inr other ↦ subst (λ ms. mem_text v ms ≡ true) (members-insert u other) m
      ]

  -- A definition that is stored and removed again leaves no cycle.
  pub Acyclic-undo :
      Acyclic ds outs
      → Acyclic
          (remove subject (insert subject d ds))
          (remove d.output (insert d.output subject outs))
  Acyclic-undo a x p = a x (
      Leads-mono
        (members_in (remove subject (insert subject d ds))
          (remove d.output (insert d.output subject outs)))
        (members_in ds outs) kept p)
    where
      kept :
          (u v : Text)
          → mem_text v (
              members_in
                (remove subject (insert subject d ds))
                (remove d.output (insert d.output subject outs))
                u)
            ≡ true
          → mem_text v (members_in ds outs u) ≡ true
      kept u v m =
          let (other, before) =
            members-remove (insert subject d ds) (insert d.output subject outs)
              (hook_all subject (summary_members d.config) ps) subject d Indexed-insert
              (ground (arith, lookup-insert subject subject d ds, text_eq_refl subject)) u v m in
          subst (λ ms. mem_text v ms ≡ true) (members-insert u other) before
