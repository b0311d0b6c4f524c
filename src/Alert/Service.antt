-- ===== src/Alert/Service.antt =====
-- alert/service.go: the state of the alert service, what it asks of the stream, and its indexes. A
-- pointer to a definition is its `identity`, a number no other allocation has. What the stream, the clock
-- and the ID source answer depends on the number of calls made before.
pub mod Comparing
pub mod Evaluating
pub mod Ancestors
pub mod Cycles
pub mod Handlers
pub mod Loading
pub mod Events
pub mod Storing
pub mod Index
mod Examples
pub mod Keeping
pub mod Valid
use go_scada.Base.{
  ℕ, suc, Text, Bool, true, false, not, List, [], ◌∷◌, ◌++◌, Option, none, some, Dict, lookup,
  insert, remove, text_eq, filter, if◌then◌else◌,
}
use go_scada.Json.{Decoder}
use go_scada.Value.{Value}
use go_scada.Alert.Model.{
  AlertType, binary, value, summary, other, Properties, SummaryConfig, Config, Time, State,
}

pub record Environment : Type 0 where
  pub decode_properties : Decoder Properties
  pub decode_config : Decoder Config
  pub decode_state : Decoder State
  pub encode_state : State → Text
  pub parse_float : Text → Option ℕ
  pub now : ℕ → Time
  pub new_id : ℕ → Text
  -- Whether PublishString, and whether Watch of an exact watch, returns without an error.
  pub publishes : ℕ → Text → Text → Bool
  pub watches : ℕ → Text → Bool
  -- GetString, GetAny and the two lists, with `none` for an error.
  pub get_string : ℕ → Text → Option Text
  pub get_any : ℕ → Text → Option Value
  pub list_suffix : ℕ → Text → Option (List Text)
  pub list_prefix : ℕ → Text → Option (List Text)
  -- Whether an exact watch, the property subscription and that of created subjects start.
  pub starts : ℕ → Text → Bool

pub record Definition : Type 0 where
  pub identity : ℕ
  pub raw : Text
  pub config : Config
  pub output : Text
  pub source : Text
  pub input : Option Value

-- `configs`, `states_watch` and `inputs` are nil, or the subjects that the exact watch was told to watch.
-- `sent` holds what PublishString accepted, the newest first; `stopped` the subscriptions that were
-- stopped.
pub record Service : Type 0 where
  pub properties : Dict Properties
  pub definitions : Dict Definition
  pub by_output : Dict Text
  pub states : Dict State
  pub published : Dict Text
  pub dirty : Dict Bool
  pub parents : Dict (List Text)
  pub globals : List Text
  pub configs : Option (List Text)
  pub states_watch : Option (List Text)
  pub inputs : Option (List Text)
  pub running : Bool
  pub allocated : ℕ
  pub calls : ℕ
  pub sent : List (Text × Text)
  pub stopped : List Text

abbrev pub new_service : Service
new_service = record {
  properties = [];
  definitions = [];
  by_output = [];
  states = [];
  published = [];
  dirty = [];
  parents = [];
  globals = [];
  configs = none;
  states_watch = none;
  inputs = none;
  running = false;
  allocated = 0;
  calls = 0;
  sent = [];
  stopped = [];
}

-- One call out of the service was made.
abbrev pub tick : Service → Service
tick s = record s { calls = suc s.calls }

-- What a map of slices gives for a key, nil if it has none.
abbrev pub slice_of : Option (List Text) → List Text
slice_of none = []
slice_of (some xs) = xs

-- service.parents[member]
abbrev pub parents_of : Text → Dict (List Text) → List Text
parents_of member parents = slice_of (lookup member parents)

abbrev pub is_summary : AlertType → Bool
is_summary summary = true
is_summary _ = false

-- The members of the definition if it is a summary, and nothing to range over otherwise.
members_if : Bool → Option SummaryConfig → List Text
members_if true (some config) = config.members
members_if _ _ = []

unfoldable pub summary_members : Config → List Text
unfolding members_if
summary_members config = members_if (is_summary config.kind) config.summary

-- The members of every definition: nothing else is reached below an output.
unfoldable pub all_members : Dict Definition → List Text
all_members [] = []
all_members ((_, d) ∷ ds) = summary_members d.config ++ all_members ds

unfoldable pub remove_string : List Text → Text → List Text
remove_string values target = filter (λ value. not (text_eq value target)) values

-- The loops of hookParentsLocked and unhookParentsLocked.
unfoldable pub hook_all : Text → List Text → Dict (List Text) → Dict (List Text)
hook_all subject [] parents = parents
hook_all subject (member ∷ members) parents =
    hook_all subject members (insert member (parents_of member parents ++ subject ∷ []) parents)

put_parents : Text → List Text → Dict (List Text) → Dict (List Text)
put_parents member [] parents = remove member parents
put_parents member (x ∷ xs) parents = insert member (x ∷ xs) parents

unfoldable pub unhook_all : Text → List Text → Dict (List Text) → Dict (List Text)
unfolding put_parents remove_string
unhook_all subject [] parents = parents
unhook_all subject (member ∷ members) parents =
    unhook_all subject members
      (put_parents member (remove_string (parents_of member parents) subject) parents)

unfoldable pub hook_parents : Text → Definition → Service → Service
hook_parents subject d s = record s {
  parents = hook_all subject (summary_members d.config) s.parents;
}

unfoldable pub unhook_parents : Text → Definition → Service → Service
unhook_parents subject d s = record s {
  parents = unhook_all subject (summary_members d.config) s.parents;
}

-- `service.inputs.Remove`, whose error is only logged.
unwatch_input : Text → Option (List Text) → Option (List Text)
unwatch_input source none = none
unwatch_input source (some names) = some (remove_string names source)

remove_found : Text → Option Definition → Service → Service
unfolding unwatch_input
remove_found subject none s = s
remove_found subject (some d) s =
    let unhooked = unhook_parents subject d s in
    record unhooked {
      definitions = remove subject s.definitions;
      by_output = remove d.output s.by_output;
      inputs = if is_summary d.config.kind then s.inputs else unwatch_input d.source s.inputs;
    }

unfoldable pub remove_definition : Text → Service → Service
unfolding remove_found
remove_definition subject s = remove_found subject (lookup subject s.definitions) s

-- `service.definitions[service.byOutput[output]]`, where a missing output reads as the empty subject.
abbrev pub name_of : Option Text → Text
name_of none = []
name_of (some subject) = subject

abbrev pub definition_for_output : Text → Service → Option Definition
definition_for_output output s = lookup (name_of (lookup output s.by_output)) s.definitions
