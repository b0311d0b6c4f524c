-- ===== src/Alert/Service/Cycles/Order.antt =====
-- alert/service.go: where summaryCycleLocked returns false, the outputs it visited have an order in which
-- each stands before its members, so no cycle is in reach.
use go_scada.Base.{
  ℕ, zero, suc, Text, true, false, ◌||◌, ◌≡◌, refl, sym, ◌↔◌, List, [], ◌∷◌, Option, none, some,
  Dict, lookup, mem_text, mem_text-append, text_eq, text_eq_iff, text_eq_refl, Bool-cases, inl, inr,
  arith, subst, ◌≢◌,
}
use go_scada.Alert.Service.{Definition, Service, all_members, summary_members, name_of}
use go_scada.Alert.Service.Cycles.{
  Verdict, cycle, out_of_fuel, clear, if_clear, visit_all, visit, members_of, members_in,
  summary_search, found_cycle, summary_cycle,
}
use go_scada.Alert.Service.Cycles.Search.{
  Leads, edge, longer, HasCycle, search-cycle, search_returns,
}

if_clear-clear :
    (v : Verdict) (rest : List Text → Verdict) (w : List Text)
    → if_clear v rest ≡ clear w
    → (visited : List Text) × (v ≡ clear visited) × (rest visited ≡ clear w)
if_clear-clear cycle rest w h = absurd cc
if_clear-clear out_of_fuel rest w h = absurd cc
if_clear-clear (clear visited) rest w h = (visited, refl, h)

clear-injective : {v w : List Text} → clear v ≡ clear w → v ≡ w
clear-injective h = cc

module _ (members : Text → List Text) where
  -- The members of each output stand after it.
  abbrev Ordered : List Text → Type 0
  Ordered [] = Unit
  Ordered (x ∷ xs) =
      ((y : Text) → mem_text y (members x) ≡ true → mem_text y xs ≡ true)
      × (mem_text x xs ≡ false)
      × Ordered xs

  Ordered-member :
      (xs : List Text) (x y : Text)
      → Ordered xs
      → mem_text x xs ≡ true
      → mem_text y (members x) ≡ true
      → mem_text y xs ≡ true
  unfolding mem_text
  Ordered-member [] x y h m e = absurd cc
  Ordered-member (z ∷ xs) x y (below, _, h) m e = elim (Bool-cases (text_eq z x)) [
    | inl same ↦ ground (
      arith,
      below y (subst (λ u. mem_text y (members u) ≡ true) (sym ((text_eq_iff z x).0 same)) e),
    )
    | inr other ↦ ground (arith, Ordered-member xs x y h (ground (arith, m, other)) e)
  ]

  Ordered-Leads :
      (xs : List Text)
      → Ordered xs
      → {x y : Text} → Leads members x y
      → mem_text x xs ≡ true
      → mem_text y xs ≡ true
  Ordered-Leads xs h {x} (edge {y} e) m = Ordered-member xs x y h m e
  Ordered-Leads xs h {x} (longer {y} {z} p e) m = Ordered-member xs y z h (Ordered-Leads xs h p m) e

  -- From the first output on, every path goes on among the others.
  Ordered-first :
      (z : Text) (xs : List Text)
      → Ordered (z ∷ xs)
      → {y : Text} → Leads members z y
      → mem_text y xs ≡ true
  Ordered-first z xs (below, _, h) (edge {y} e) = below y e
  Ordered-first z xs (below, new, h) (longer {y} {z = w} p e) =
      Ordered-member xs y w h (Ordered-first z xs (below, new, h) p) e

  Ordered-acyclic :
      (xs : List Text) (x : Text) → Ordered xs → mem_text x xs ≡ true → Leads members x x → ⊥
  unfolding mem_text
  Ordered-acyclic [] x h m p = cc
  Ordered-acyclic (z ∷ xs) x (below, new, h) m p = elim (Bool-cases (text_eq z x)) [
    | inl same ↦
        let again =
          Ordered-first z xs (below, new, h)
            (subst (λ u. Leads members u u) (sym ((text_eq_iff z x).0 same)) p) in
        cc
    | inr other ↦ Ordered-acyclic xs x h (ground (arith, m, other)) p
  ]

  -- What is visited is finished or being visited, and the finished outputs are in order.
  record Finished (visiting visited order : List Text) : Type 0 where
    ordered : Ordered order
    covered :
        (t : Text) → mem_text t visited ≡ true → (mem_text t visiting || mem_text t order) ≡ true
    within : (t : Text) → mem_text t order ≡ true → mem_text t visited ≡ true
    apart : (t : Text) → mem_text t order ≡ true → mem_text t visiting ≡ false

  -- The outputs given are finished now, and all that were visited and finished still are.
  record Finishes (visiting visited order outputs after : List Text) : Type 0 where
    final : List Text
    finished : Finished visiting after final
    done : (t : Text) → mem_text t outputs ≡ true → mem_text t final ≡ true
    still : (t : Text) → mem_text t order ≡ true → mem_text t final ≡ true
    seen : (t : Text) → mem_text t visited ≡ true → mem_text t after ≡ true

  abbrev Correct : List Text → (List Text → Text → Verdict) → Type 0
  Correct visiting go =
      (visited order : List Text) (output : Text) (after : List Text)
      → Finished visiting visited order
      → go visited output ≡ clear after
      → Finishes visiting visited order (output ∷ []) after

  visit_all-Finishes :
      (visiting : List Text) (go : List Text → Text → Verdict)
      → Correct visiting go
      → (ms visited order after : List Text) → Finished visiting visited order
      → visit_all members go ms visited ≡ clear after
      → Finishes visiting visited order ms after
  unfolding visit_all mem_text
  visit_all-Finishes visiting go correct [] visited order after h e = record {
    final = order;
    finished = subst (λ v. Finished visiting v order) (clear-injective e) h;
    done = λ t m. absurd cc;
    still = λ t m. m;
    seen = λ t m. subst (λ v. mem_text t v ≡ true) (clear-injective e) m;
  }
  visit_all-Finishes visiting go correct (m ∷ ms) visited order after h e =
      let (between, one, rest) = if_clear-clear (go visited m) (visit_all members go ms) after e in
      let first = correct visited order m between h one in
      let later =
        visit_all-Finishes visiting go correct ms between first.final after first.finished rest in
      record {
        final = later.final;
        finished = later.finished;
        done = λ t k. elim (Bool-cases (text_eq m t)) [
          | inl same ↦ later.still t (first.done t (ground (arith, same)))
          | inr other ↦ later.done t (ground (arith, k, other))
        ];
        still = λ t k. later.still t (first.still t k);
        seen = λ t k. later.seen t (first.seen t k);
      }

  Finished-enter :
      (visiting visited order : List Text) (output : Text)
      → mem_text output visited ≡ false
      → Finished visiting visited order
      → Finished (output ∷ visiting) (output ∷ visited) order
  unfolding mem_text
  Finished-enter visiting visited order output new h = record {
    ordered = h.ordered;
    covered = λ t m. ground (arith, h.covered t, m);
    within = λ t m. ground (arith, h.within t m);
    apart = λ t m. elim (Bool-cases (text_eq output t)) [
      | inl same ↦ absurd (
          ground (
            arith,
            h.within t m,
            subst (λ u. mem_text u visited ≡ false) ((text_eq_iff output t).0 same) new,
          ))
      | inr other ↦ ground (arith, h.apart t m, other)
    ];
  }

  Finishes-leave :
      (visiting visited order : List Text) (output : Text) (after : List Text)
      → mem_text output visiting ≡ false
      → Finishes (output ∷ visiting) (output ∷ visited) order (members output) after
      → Finishes visiting visited order (output ∷ []) after
  unfolding mem_text
  Finishes-leave visiting visited order output after fresh h =
      let out : mem_text output h.final ≡ false = elim (Bool-cases (mem_text output h.final)) [
        | inl inside ↦ absurd (ground (arith, h.finished.apart output inside, text_eq_refl output))
        | inr outside ↦ outside
      ] in
      record {
        final = output ∷ h.final;
        finished = record {
          ordered = (h.done, out, h.finished.ordered);
          covered = λ t m. ground (arith, h.finished.covered t m);
          within = λ t m. elim (Bool-cases (text_eq output t)) [
            | inl same ↦ h.seen t (ground (arith, same))
            | inr other ↦ h.finished.within t (ground (arith, m, other))
          ];
          apart = λ t m. elim (Bool-cases (text_eq output t)) [
            | inl same ↦
                subst (λ u. mem_text u visiting ≡ false) ((text_eq_iff output t).0 same) fresh
            | inr other ↦ ground (arith, h.finished.apart t (ground (arith, m, other)))
          ];
        };
        done = λ t m. ground (arith, m);
        still = λ t m. ground (arith, h.still t m);
        seen = λ t m. h.seen t (ground (arith, m));
      }

  visit-Correct :
      (depth : ℕ) (visiting : List Text) → Correct visiting (visit members depth visiting)
  unfolding visit mem_text
  visit-Correct zero visiting visited order output after h e = absurd cc
  visit-Correct (suc depth) visiting visited order output after h e =
      elim (Bool-cases (mem_text output visiting)) [
        | inl again ↦ absurd (ground (arith, e, again))
        | inr fresh ↦ elim (Bool-cases (mem_text output visited)) [
          | inl old ↦
              let same : visited ≡ after = clear-injective (rw (fresh, old) at e) in
              record {
                final = order;
                finished = subst (λ v. Finished visiting v order) same h;
                done = λ t m.
                    subst (λ u. mem_text u order ≡ true)
                      ((text_eq_iff output t).0 (ground (arith, m)))
                      (ground (arith, h.covered output old, fresh));
                still = λ t m. m;
                seen = λ t m. subst (λ v. mem_text t v ≡ true) same m;
              }
          | inr new ↦ Finishes-leave visiting visited order output after fresh (
              visit_all-Finishes (output ∷ visiting) (visit members depth (output ∷ visiting))
                (visit-Correct depth (output ∷ visiting)) (members output) (output ∷ visited) order
                after (Finished-enter visiting visited order output new h) (rw (fresh, new) at e))
        ]
      ]

  search-clear :
      (depth : ℕ) (start : Text) (after : List Text)
      → visit members depth [] [] start ≡ clear after
      → HasCycle members start
      → ⊥
  unfolding mem_text
  search-clear depth start after e c =
      let empty : Finished [] [] [] = record {
        ordered = tt;
        covered = λ t m. absurd cc;
        within = λ t m. absurd cc;
        apart = λ t m. absurd cc;
      } in
      let f = visit-Correct depth [] [] [] start after empty e in
      let here = f.done start (ground (arith, text_eq_refl start)) in
      let on : mem_text c.on f.final ≡ true = elim c.reached [
        | inl same ↦ subst (λ u. mem_text u f.final ≡ true) (sym same) here
        | inr path ↦ Ordered-Leads f.final f.finished.ordered path here
      ] in
      Ordered-acyclic f.final c.on f.finished.ordered on c.around

-- The members of an output are among the members of all definitions.
members-found :
    (ds : Dict Definition) (subject : Text) (d : Definition) (y : Text)
    → lookup subject ds ≡ some d
    → mem_text y (summary_members d.config) ≡ true
    → mem_text y (all_members ds) ≡ true
unfolding lookup all_members mem_text
members-found [] subject d y h m = absurd cc
members-found ((k, e) ∷ ds) subject d y h m = elim (Bool-cases (text_eq k subject)) [
  | inl same ↦
      let is : e ≡ d = ground (arith, h, same) in rw (mem_text-append, is) (ground (arith, m))
  | inr other ↦
      rw mem_text-append (ground (arith, members-found ds subject d y (ground (arith, h, other)) m))
]

pub members_of-all :
    (s : Service) (start x y : Text)
    → mem_text y (members_of s x) ≡ true
    → mem_text y (start ∷ all_members s.definitions) ≡ true
unfolding members_in mem_text
members_of-all s start x y m = of (lookup (name_of (lookup x s.by_output)) s.definitions) refl m
  where
    of :
        (o : Option Definition)
        → lookup (name_of (lookup x s.by_output)) s.definitions ≡ o
        → mem_text y (elim o [ none ↦ [] | some d ↦ summary_members d.config ]) ≡ true
        → mem_text y (start ∷ all_members s.definitions) ≡ true
    of none e k = absurd cc
    of (some d) e k =
        ground (arith, members-found s.definitions (name_of (lookup x s.by_output)) d y e k)

-- The search of summaryCycleLocked always returns: it never goes deeper than one call for the start, one
-- for each member of a definition, and one that sees that its output is in progress.
pub summary_search_returns : (start : Text) (s : Service) → summary_search start s ≢ out_of_fuel
unfolding summary_search mem_text
summary_search_returns start s =
    search_returns (members_of s) (start ∷ all_members s.definitions) (members_of-all s start) start
      (ground (arith, text_eq_refl start))

-- summaryCycleLocked is true exactly if, going from the output to members of summaries, a cycle of
-- summaries is in reach.
pub summary_cycle_iff :
    (start : Text) (s : Service) → (summary_cycle start s ≡ true) ↔ HasCycle (members_of s) start
unfolding summary_cycle summary_search
summary_cycle_iff start s = of (summary_search start s) refl (summary_search_returns start s)
  where
    of :
        (v : Verdict)
        → summary_search start s ≡ v
        → summary_search start s ≢ out_of_fuel
        → (found_cycle (summary_search start s) ≡ true) ↔ HasCycle (members_of s) start
    of cycle e k = (λ h. search-cycle (members_of s) _ start e, λ c. rw e)
    of out_of_fuel e k = absurd (k e)
    of (clear after) e k = (
      λ h. absurd (ground (arith, h, e)),
      λ c. absurd (search-clear (members_of s) _ start after e c),
    )
