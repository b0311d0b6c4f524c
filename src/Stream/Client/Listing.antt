-- ===== src/Stream/Client/Listing.antt =====
-- stream/client.go over retain/server.go: ListSubjects and ListSubjectsPrefix. The JSON of a request is a
-- parameter; that of a response is taken as the list that it holds.
use go_scada.Base.{
  Text, true, false, ◌&&◌, List, [], ◌++◌, Option, none, some, Result, ok, err, codes, is_empty,
  trim_space, ◌≡◌, refl, sym, ◌∙◌, is_some, mem_text, Sorted, sort_by, text_lt, text_lt_asym,
  text_le_trans, sort_by-Sorted, any-sort_by, mem_text-any, text_eq, if◌then◌else◌,
}
use go_scada.Retain.Store.{get as retained}
use go_scada.Retain.Server.{ListRequest, Response, listed, list_subject, handle_list, selects}
use go_scada.Retain.Server.Listing.{NotAbove, handle_list-lists}
use go_scada.Stream.Subjects.{SubjectError, validate_prefix}
use go_scada.Stream.Client.{
  Environment, Stream, ClientError, subject_error, marshal_failed, request_failed, decode_failed,
  tick,
}

pub record Encoding : Type 0 where
  -- json.Marshal and json.Unmarshal of a request, with `none` for an error.
  pub encode : ListRequest → Option Text
  pub decode : Text → Option ListRequest

-- json.Unmarshal of a response, and sort.Strings.
unfoldable pub subjects_of : Response → Result ClientError (List Text)
subjects_of (listed subjects) = ok (sort_by text_lt subjects)
subjects_of _ = err decode_failed

module _ (env : Environment) (json : Encoding) where
  unfoldable pub send_request : Option Text → Stream → Result ClientError (List Text) × Stream
  unfolding subjects_of
  send_request none s = (err marshal_failed, s)
  send_request (some body) s = (
    if env.answers s.calls
        then subjects_of (
            handle_list s.system json.decode
              (record { subject = list_subject s.system; reply = codes "_INBOX"; body = body })
              s.store)
        else err request_failed,
    tick s,
  )

  -- listSubjects
  unfoldable pub list_request : ListRequest → Stream → Result ClientError (List Text) × Stream
  unfolding send_request
  list_request request s = send_request (json.encode request) s

  -- ListSubjects
  unfoldable pub list_subjects : Text → Stream → Result ClientError (List Text) × Stream
  unfolding list_request
  list_subjects suffix s = list_request (record { suffix = trim_space suffix; prefix = [] }) s

  list_valid : Result SubjectError (Text × Text) → Stream → Result ClientError (List Text) × Stream
  unfolding list_request
  list_valid (err e) s = (err (subject_error e), s)
  list_valid (ok (prefix, _)) s = list_request (record { suffix = []; prefix = prefix }) s

  -- ListSubjectsPrefix
  unfoldable pub list_subjects_prefix : Text → Stream → Result ClientError (List Text) × Stream
  unfolding list_valid
  list_subjects_prefix prefix s = list_valid (validate_prefix s.system prefix) s

  -- The list for a request.
  abbrev pub Lists : ListRequest → Stream → Result ClientError (List Text) → Type 0
  Lists request s r =
      (found : List Text) × (r ≡ ok found)
      × ((relative : Text)
          → mem_text relative found ≡ (
              selects request relative
              && is_some (retained ((s.system ++ codes ".") ++ relative) s.store)))
      × Sorted NotAbove found

  list_request-Lists :
      (request : ListRequest) (body : Text) (s : Stream)
      → json.encode request ≡ some body
      → is_empty body ≡ false
      → json.decode body ≡ some request
      → env.answers s.calls ≡ true
      → Lists request s (list_request request s).0
  unfolding list_request send_request subjects_of
  list_request-Lists request body s encoded nonempty decoded answers =
      let (found, is, members, sorted) =
        handle_list-lists s.system json.decode
          (record { subject = list_subject s.system; reply = codes "_INBOX"; body = body }) request
          s.store refl (rw nonempty decoded) in
      (
        sort_by text_lt found,
        rw (encoded, answers, is) refl,
        λ relative.
            mem_text-any relative (sort_by text_lt found)
            ∙ any-sort_by text_lt (λ t. text_eq t relative) found
            ∙ sym (mem_text-any relative found)
            ∙ members relative,
        sort_by-Sorted text_lt NotAbove text_lt_asym (λ a b h. h) text_le_trans found,
      )

-- Where a request's JSON is not empty and decodes to the request, and the retain service answers,
-- ListSubjects returns, in order, exactly the nonempty subjects under the system's name that end in the
-- suffix without its outer space and have a retained value.
pub list_subjects-Lists :
    (env : Environment) (json : Encoding) (suffix : Text) (body : Text) (s : Stream)
    → json.encode (record { suffix = trim_space suffix; prefix = [] }) ≡ some body
    → is_empty body ≡ false
    → json.decode body ≡ some (record { suffix = trim_space suffix; prefix = [] })
    → env.answers s.calls ≡ true
    → Lists env json
        (record { suffix = trim_space suffix; prefix = [] })
        s
        (list_subjects env json suffix s).0
unfolding list_subjects
list_subjects-Lists env json suffix body s encoded nonempty decoded answers =
    list_request-Lists env json (record { suffix = trim_space suffix; prefix = [] }) body s encoded
      nonempty decoded answers
