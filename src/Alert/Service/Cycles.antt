-- ===== src/Alert/Service/Cycles.antt =====
-- alert/service.go: summaryCycleLocked, the search for a cycle of summaries.
pub mod Search
pub mod Order
use go_scada.Base.{
  ℕ, zero, suc, Text, Bool, true, false, List, [], ◌∷◌, if◌then◌else◌, mem_text, length, none, some,
  Dict, lookup,
}
use go_scada.Alert.Service.{
  Service, summary_members, all_members, definition_for_output, name_of, Definition,
}

-- What `visit` returns: true, or false with the `visited` set it leaves.
pub data Verdict : Type 0 where
  cycle out_of_fuel : Verdict
  clear : List Text → Verdict

-- `if visit(member) { return true }`, then the rest.
abbrev pub if_clear : Verdict → (List Text → Verdict) → Verdict
if_clear cycle rest = cycle
if_clear out_of_fuel rest = out_of_fuel
if_clear (clear visited) rest = rest visited

module _ (members : Text → List Text) where
  -- The loop over the members, with the recursive call as a function of `visited`.
  unfoldable pub visit_all : (List Text → Text → Verdict) → List Text → List Text → Verdict
  visit_all visit [] visited = clear visited
  visit_all visit (member ∷ rest) visited = if_clear (visit visited member) (visit_all visit rest)

  -- `visiting` is set on entry and deleted when false is returned, so it is an argument: the outputs that
  -- the calls in progress are about.
  unfoldable pub visit : ℕ → List Text → List Text → Text → Verdict
  visit zero visiting visited output = out_of_fuel
  visit (suc depth) visiting visited output =
      let deeper =
        visit_all (visit depth (output ∷ visiting)) (members output) (output ∷ visited) in
      if mem_text output visiting
      then cycle
      else if mem_text output visited
      then clear visited
      else deeper

-- The members of the definition of an output, if it is a summary, in the maps of definitions and outputs.
unfoldable pub members_in : Dict Definition → Dict Text → Text → List Text
members_in definitions by_output output =
    elim (lookup (name_of (lookup output by_output)) definitions) [
      | none ↦ []
      | some d ↦ summary_members d.config
    ]

abbrev pub members_of : Service → Text → List Text
members_of s = members_in s.definitions s.by_output

-- The search. The calls in progress are about different outputs, the start or members of definitions.
unfoldable pub summary_search : Text → Service → Verdict
summary_search start s =
    visit (members_of s) (suc (suc (length (all_members s.definitions)))) [] [] start

abbrev pub found_cycle : Verdict → Bool
found_cycle cycle = true
found_cycle _ = false

-- summaryCycleLocked
unfoldable pub summary_cycle : Text → Service → Bool
summary_cycle start s = found_cycle (summary_search start s)
