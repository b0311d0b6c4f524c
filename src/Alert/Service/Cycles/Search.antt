-- ===== src/Alert/Service/Cycles/Search.antt =====
-- alert/service.go: the depth-first search of summaryCycleLocked decides whether a cycle is in reach.
use go_scada.Base.{
  ℕ, zero, suc, ◌≤◌, Text, true, false, ◌≡◌, refl, sym, List, [], ◌∷◌, mem_text, length, text_eq,
  text_eq_iff, if◌then◌else◌, if_cases, Bool-cases, inl, inr, arith, subst, ◌⊎◌, ◌≢◌,
}
use go_scada.Alert.Service.Cycles.{Verdict, cycle, out_of_fuel, clear, if_clear, visit_all, visit}

if_clear-cycle :
    (v : Verdict) (rest : List Text → Verdict)
    → if_clear v rest ≡ cycle
    → (v ≡ cycle) ⊎ ((visited : List Text) × (v ≡ clear visited) × (rest visited ≡ cycle))
if_clear-cycle cycle rest h = inl refl
if_clear-cycle out_of_fuel rest h = absurd cc
if_clear-cycle (clear visited) rest h = inr (visited, refl, h)

if_clear-returns :
    (v : Verdict) (rest : List Text → Verdict)
    → v ≢ out_of_fuel
    → ((visited : List Text) → rest visited ≢ out_of_fuel)
    → if_clear v rest ≢ out_of_fuel
if_clear-returns cycle rest h k = λ e. cc
if_clear-returns out_of_fuel rest h k = λ e. h refl
if_clear-returns (clear visited) rest h k = k visited

module _ (members : Text → List Text) where
  -- A member of an output, a member of a member, and so on.
  pub data Leads (x : Text) : Text → Type 0 where
    edge : {y : Text} → mem_text y (members x) ≡ true → Leads x y
    longer : {y z : Text} → Leads x y → mem_text z (members y) ≡ true → Leads x z

  -- A cycle that is in reach of an output.
  pub record HasCycle (start : Text) : Type 0 where
    pub on : Text
    pub reached : (on ≡ start) ⊎ Leads start on
    pub around : Leads on on

  pub Leads-from : {x y z : Text} → mem_text y (members x) ≡ true → Leads y z → Leads x z
  Leads-from e (edge f) = longer (edge e) f
  Leads-from e (longer p f) = longer (Leads-from e p) f

  pub HasCycle-from : {x y : Text} → mem_text y (members x) ≡ true → HasCycle y → HasCycle x
  HasCycle-from {x} {y} e h = record {
    on = h.on;
    reached = elim h.reached [
      | inl same ↦ inr (subst (Leads x) (sym same) (edge e))
      | inr path ↦ inr (Leads-from e path)
    ];
    around = h.around;
  }

  -- `true` from the loop over members is `true` from one of them.
  visit_all-cycle :
      (go : List Text → Text → Verdict) (ms visited : List Text)
      → visit_all members go ms visited ≡ cycle
      → (m : Text) × (visited' : List Text) × (mem_text m ms ≡ true) × (go visited' m ≡ cycle)
  unfolding visit_all mem_text
  visit_all-cycle go [] visited h = absurd cc
  visit_all-cycle go (m ∷ ms) visited h =
      elim (if_clear-cycle (go visited m) (visit_all members go ms) h) [
        | inl found ↦ (m, visited, ground (arith, text_eq_iff m m), found)
        | inr (visited', _, later) ↦
            let (n, after, among, found) = visit_all-cycle go ms visited' later in
            (n, after, ground (arith, among), found)
      ]

  -- If the search finds a cycle, there is one: the outputs of the calls in progress lead to the output.
  visit-cycle :
      (depth : ℕ) (visiting visited : List Text) (output : Text)
      → ((t : Text) → mem_text t visiting ≡ true → Leads t output)
      → visit members depth visiting visited output ≡ cycle
      → HasCycle output
  unfolding visit mem_text
  visit-cycle zero visiting visited output lead h = absurd cc
  visit-cycle (suc depth) visiting visited output lead h =
      elim (Bool-cases (mem_text output visiting)) [
        | inl again ↦ record { on = output; reached = inl refl; around = lead output again }
        | inr fresh ↦ elim (Bool-cases (mem_text output visited)) [
          | inl seen ↦ absurd (ground (arith, h, fresh, seen))
          | inr new ↦
              let found : visit_all members (visit members depth (output ∷ visiting))
                    (members output) (output ∷ visited)
                  ≡ cycle =
                rw (fresh, new) at h in
              let (m, visited', among, below) =
                visit_all-cycle (visit members depth (output ∷ visiting)) (members output)
                  (output ∷ visited) found in
              HasCycle-from among
                (visit-cycle depth (output ∷ visiting) visited' m (leads_on m among) below)
        ]
      ]
    where
      leads_on :
          (m : Text)
          → mem_text m (members output) ≡ true
          → (t : Text) → mem_text t (output ∷ visiting) ≡ true
          → Leads t m
      leads_on m among t k = elim (Bool-cases (text_eq output t)) [
        | inl same ↦ subst (λ u. Leads u m) ((text_eq_iff output t).0 same) (edge among)
        | inr other ↦ longer (lead t (ground (arith, k, other))) among
      ]

  pub search-cycle :
      (depth : ℕ) (start : Text) → visit members depth [] [] start ≡ cycle → HasCycle start
  unfolding mem_text
  search-cycle depth start h = visit-cycle depth [] [] start (λ t m. absurd cc) h

  module _ (nodes : List Text)
      (all_nodes : (x y : Text) → mem_text y (members x) ≡ true → mem_text y nodes ≡ true) where
    -- The nodes that no call in progress is about.
    abbrev pub free : List Text → List Text → ℕ
    free [] visiting = 0
    free (n ∷ ns) visiting =
        let rest = free ns visiting in if mem_text n visiting then rest else suc rest

    free-le :
        (ns : List Text) (t : Text) (visiting : List Text)
        → free ns (t ∷ visiting) ≤ free ns visiting
    unfolding mem_text
    free-le [] t visiting = omega arith
    free-le (n ∷ ns) t visiting = ground (arith, free-le ns t visiting)

    pub free-step :
        (ns : List Text) (t : Text) (visiting : List Text)
        → mem_text t ns ≡ true
        → mem_text t visiting ≡ false
        → suc (free ns (t ∷ visiting)) ≤ free ns visiting
    unfolding mem_text
    free-step [] t visiting h k = absurd cc
    free-step (n ∷ ns) t visiting h k = elim (Bool-cases (text_eq n t)) [
      | inl same ↦ ground (
        arith,
        free-le ns t visiting,
        text_eq_iff n t,
        text_eq_iff t n,
        subst (λ u. mem_text u visiting ≡ false) (sym ((text_eq_iff n t).0 same)) k,
      )
      | inr other ↦ ground (
        arith,
        free-step ns t visiting (ground (arith, h, other)) k,
        text_eq_iff n t,
        text_eq_iff t n,
      )
    ]

    visit_all-returns :
        (go : List Text → Text → Verdict) (ms visited : List Text)
        → ((m : Text) (v : List Text) → mem_text m ms ≡ true → go v m ≢ out_of_fuel)
        → visit_all members go ms visited ≢ out_of_fuel
    unfolding visit_all mem_text
    visit_all-returns go [] visited h = λ e. cc
    visit_all-returns go (m ∷ ms) visited h =
        if_clear-returns (go visited m) (visit_all members go ms)
          (h m visited (ground (arith, text_eq_iff m m)))
          (λ visited'.
            visit_all-returns go ms visited' (λ n v among. h n v (ground (arith, among))))

    pub visit-returns :
        (depth : ℕ) (visiting visited : List Text) (output : Text)
        → mem_text output nodes ≡ true
        → suc (free nodes visiting) ≤ depth
        → visit members depth visiting visited output ≢ out_of_fuel
    unfolding visit
    visit-returns zero visiting visited output here h = absurd (omega arith)
    visit-returns (suc depth) visiting visited output here h =
        if_cases (λ v. v ≢ out_of_fuel) (mem_text output visiting) _ _ (λ again e. cc)
          (λ fresh.
            if_cases (λ v. v ≢ out_of_fuel) (mem_text output visited) _ _ (λ seen e. cc)
              (λ new.
                visit_all-returns (visit members depth (output ∷ visiting)) (members output)
                  (output ∷ visited)
                  (λ m v among.
                    visit-returns depth (output ∷ visiting) v m (all_nodes output m among)
                      (omega (arith, free-step nodes output visiting here fresh)))))

    pub free-nil : (ns : List Text) → free ns [] ≡ length ns
    unfolding mem_text
    free-nil [] = refl
    free-nil (n ∷ ns) = ground (arith, free-nil ns)

    -- One level more than there are nodes is enough.
    pub search_returns :
        (start : Text)
        → mem_text start nodes ≡ true
        → visit members (suc (length nodes)) [] [] start ≢ out_of_fuel
    search_returns start here =
        visit-returns (suc (length nodes)) [] [] start here (omega (arith, free-nil nodes))
