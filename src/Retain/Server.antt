-- ===== src/Retain/Server.antt =====
-- retain/server.go and retain/protocol.go: the handlers over the store, by what they respond.
pub mod Listing
use go_scada.Base.{
  Text, Bool, true, false, not, ◌&&◌, ◌||◌, List, [], ◌∷◌, ◌++◌, Option, none, some, codes,
  is_empty, if◌then◌else◌, has_suffix, has_prefix, cut_prefix, text_lt, sort_by, trim_space,
}
use go_scada.Retain.Store.{Payload, Store, put, get, subjects}

pub record ListRequest : Type 0 where
  pub suffix : Text
  pub prefix : Text

-- A message of NATS; `reply` is empty if no answer is asked for.
pub record Message : Type 0 where
  pub subject : Text
  pub reply : Text
  pub body : Text

-- What a handler responds: nothing, the header not_found, a payload, an empty body, or a list.
pub data Response : Type 0 where
  silent not_found no_body : Response
  payload : Payload → Response
  listed : List Text → Response

unfoldable pub get_subject : Text → Text
get_subject system = codes "retain." ++ system ++ codes ".get"

unfoldable pub list_subject : Text → Text
list_subject system = codes "retain." ++ system ++ codes ".list"

unfoldable pub handle_ingest : Message → Store → Store
handle_ingest message s = if is_empty message.subject then s else put message.subject message.body s

unfoldable pub respond_get : Option Payload → Response
respond_get none = not_found
respond_get (some p) = payload p

unfoldable pub handle_get : Message → Store → Response
unfolding respond_get
handle_get message s = if is_empty message.reply then silent else respond_get (get message.body s)

-- The tests of a relative subject in the loop of handleList.
abbrev pub selects : ListRequest → Text → Bool
selects request relative =
    not (is_empty relative)
    && (is_empty request.suffix || has_suffix relative request.suffix)
    && (is_empty request.prefix || has_prefix relative request.prefix)

add_matched : ListRequest → Option Text → List Text → List Text
add_matched request none rest = rest
add_matched request (some relative) rest =
    if selects request relative then relative ∷ rest else rest

matched : Text → ListRequest → List Text → List Text
unfolding add_matched
matched prefix request [] = []
matched prefix request (full ∷ fulls) =
    add_matched request (cut_prefix full prefix) (matched prefix request fulls)

unfoldable pub list_matched : Text → ListRequest → Store → List Text
unfolding matched
list_matched system request s = sort_by text_lt (matched (system ++ codes ".") request (subjects s))

-- json.Unmarshal is the parameter: `none` for an error.
respond_list : Text → Option ListRequest → Store → Response
respond_list system none s = no_body
respond_list system (some request) s = listed (list_matched system request s)

abbrev pub every : ListRequest
every = record { suffix = []; prefix = [] }

unfoldable pub handle_list : Text → (Text → Option ListRequest) → Message → Store → Response
unfolding respond_list
handle_list system unmarshal message s =
    if is_empty message.reply
    then silent
    else respond_list system (if is_empty message.body then some every else unmarshal message.body)
        s
