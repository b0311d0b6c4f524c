-- ===== src/Alert/Service/Ancestors.antt =====
-- alert/service.go: the evaluation of the summaries above an output, of all summaries, and the
-- acknowledgement of the alerts below one.
pub mod Reaching
pub mod Depth
use go_scada.Base.{
  ℕ, zero, suc, ◌+◌, Text, Bool, false, not, ◌||◌, List, [], ◌∷◌, ◌++◌, Option, none, some, Dict,
  lookup, if◌then◌else◌, mem_text, length, pos,
}
use go_scada.Alert.Model.{State, no_presentation}
use go_scada.Alert.Service.{
  Environment, Definition, Service, parents_of, is_summary, summary_members, definition_for_output,
}
use go_scada.Alert.Service.Comparing.{state_eq}
use go_scada.Alert.Service.Evaluating.{evaluate_definition, acknowledge_one}

-- The variables of evaluateAncestorsLocked.
pub record Walk : Type 0 where
  pub queue : List Text
  pub seen : List Text
  pub service : Service

-- What is appended to the queue after a subject was evaluated.
abbrev pub parents_above : Option Definition → Dict (List Text) → List Text
parents_above none parents = []
parents_above (some d) parents = parents_of d.output parents

-- The parents that all definitions can append.
unfoldable pub all_above : Dict Definition → Dict (List Text) → ℕ
all_above [] parents = 0
all_above ((_, d) ∷ ds) parents = length (parents_of d.output parents) + all_above ds parents

module _ (env : Environment) where
  -- One round of the loop, once a subject left the queue.
  unfoldable pub walk_step : Text → List Text → List Text → Service → Walk
  walk_step subject rest seen s =
      if mem_text subject seen
      then record { queue = rest; seen = seen; service = s }
      else let after = evaluate_definition env subject s in
        record {
          queue = rest ++ parents_above (lookup subject after.definitions) after.parents;
          seen = subject ∷ seen;
          service = after;
        }

  -- The loop, for a number of rounds.
  unfoldable pub walk : ℕ → List Text → List Text → Service → Walk
  walk zero queue seen s = record { queue = queue; seen = seen; service = s }
  walk (suc fuel) [] seen s = record { queue = []; seen = seen; service = s }
  walk (suc fuel) (subject ∷ rest) seen s =
      let w = walk_step subject rest seen s in walk fuel w.queue w.seen w.service

  -- Each definition appends its parents once at most.
  unfoldable pub walk_fuel : Text → Service → ℕ
  walk_fuel output s = length (parents_of output s.parents) + all_above s.definitions s.parents

  -- The walk from an output, at its end.
  unfoldable pub walk_ancestors : Text → List Text → Service → Walk
  walk_ancestors output seen s = walk (walk_fuel output s) (parents_of output s.parents) seen s

  -- evaluateAncestorsLocked with a nil `seen`
  unfoldable pub evaluate_ancestors : Text → Service → Service
  evaluate_ancestors output s = (walk_ancestors output [] s).service

  -- The zero State.
  abbrev zero_state : State
  zero_state = record {
    version = pos 0;
    active = false;
    pending = false;
    presentation = no_presentation;
    text = [];
    acknowledged = false;
    came_time = none;
    went_time = none;
    ack_time = none;
    dominant = [];
    members = [];
    episode_id = [];
  }

  abbrev state_or_zero : Option State → State
  state_or_zero none = zero_state
  state_or_zero (some state) = state

  -- One pass over the definitions: `changed`, and the service.
  unfoldable pub summaries_pass : Dict Definition → Bool → Service → Bool × Service
  summaries_pass [] changed s = (changed, s)
  summaries_pass ((subject, d) ∷ ds) changed s =
      let skip = summaries_pass ds changed s in
      let after = evaluate_definition env subject s in
      let same =
        state_eq (state_or_zero (lookup d.output s.states))
          (state_or_zero (lookup d.output after.states)) in
      let visit = summaries_pass ds (changed || not same) after in
      if is_summary d.config.kind then visit else skip

  -- The passes of evaluateAllSummariesLocked, as many at most as given.
  unfoldable pub summaries_passes : ℕ → Service → Service
  unfolding summaries_pass
  summaries_passes zero s = s
  summaries_passes (suc passes) s =
      let (changed, after) = summaries_pass s.definitions false s in
      let again = summaries_passes passes after in if changed then again else after

  unfoldable pub evaluate_all_summaries : Service → Service
  unfolding summaries_passes
  evaluate_all_summaries s = summaries_passes (suc (length s.definitions)) s

  -- `exists && (state.Active || state.Pending)`
  abbrev pub needs_acknowledgement : Option State → Bool
  needs_acknowledgement none = false
  needs_acknowledgement (some state) = state.active || state.pending

  -- The loop over the members, with the recursive call as a function.
  unfoldable pub acknowledge_members : (Text → Service → Service) → List Text → Service → Service
  acknowledge_members visit [] s = s
  acknowledge_members visit (member ∷ members) s =
      let descend = visit member s in
      acknowledge_members visit members
        (if needs_acknowledgement (lookup member s.states) then descend else s)

  abbrev pub members_below : Option Definition → List Text
  members_below none = []
  members_below (some d) = summary_members d.config

  -- acknowledgeTreeLocked, to a depth. `visiting` is set on entry and deleted on return, so it is an
  -- argument: the outputs that the calls in progress are about.
  unfoldable pub acknowledge_tree : ℕ → List Text → Text → Service → Service
  acknowledge_tree zero visiting subject s = s
  acknowledge_tree (suc depth) visiting subject s =
      let below =
        acknowledge_members (acknowledge_tree depth (subject ∷ visiting))
          (members_below (definition_for_output subject s)) s in
      let after = acknowledge_one env subject below in
      if mem_text subject visiting then s else after
