-- ===== src/Stream/Client/Announcing.antt =====
-- stream/client.go: the announcement of a subject ends the recursion of Set.
use go_scada.Base.{
  suc, ℕ, Text, Bool, true, false, ◌≡◌, refl, sym, ◌∙◌, ap, Option, none, some, Result, ok, err,
  Check, if◌then◌else◌, trim_space, is_empty, text_eq, ◌||◌,
}
use go_scada.Stream.Values.{Kind, string, encode_value}
use go_scada.Stream.Registry.{created_subject, created_of}
use go_scada.Stream.Subjects.{SubjectError, validate_operation}
use go_scada.Stream.Client.{
  Environment, Stream, ClientError, reported, announce_payload, announce_created, after_publish,
  set_full, set_kind,
}
use go_scada.Stream.Client.Setting.{announcement}

module _ (env : Environment) (depth : ℕ) where
  abbrev deep : Text → Kind → Stream → Check ClientError × Stream
  deep = set_kind env (suc depth)

  abbrev shallow : Text → Kind → Stream → Check ClientError × Stream
  shallow = set_kind env 1

  payload-same :
      (o : Option Text) (s : Stream)
      → announce_payload env deep o s ≡ announce_payload env shallow o s
  unfolding announce_payload
  payload-same none s = refl
  payload-same (some text) s = ap (reported env) (
      announcement env depth (encode_value string text) s
      ∙ sym (announcement env 0 (encode_value string text) s))

  created-same :
      (relative : Text) (s : Stream)
      → announce_created env deep relative s ≡ announce_created env shallow relative s
  unfolding announce_created
  created-same relative s =
      ap (λ (t : Stream). if is_empty relative || text_eq relative created_subject then s else t)
        (payload-same (env.encode_created (created_of relative)) s)

  after-same :
      (announce : Bool) (relative : Text) (r : Check ClientError × Stream)
      → after_publish env deep announce relative r ≡ after_publish env shallow announce relative r
  unfolding after_publish
  after-same announce relative (err e, s) = refl
  after-same true relative (ok _, s) = ap (λ (t : Stream). (ok tt, t)) (created-same relative s)
  after-same false relative (ok _, s) = refl

  full-same :
      (relative : Text) (kind : Kind) (r : Result SubjectError Text) (s : Stream)
      → set_full env deep relative kind r s ≡ set_full env shallow relative kind r s
  unfolding set_full
  full-same relative kind (err e) s = refl
  full-same relative kind (ok full) s = after-same _ relative _

-- Set ends: the Set within announceCreated announces nothing, so no deeper call of Set is made, and a
-- greater depth gives nothing else.
pub set_kind_ends :
    (env : Environment) (depth : ℕ) (subject : Text) (kind : Kind) (s : Stream)
    → set_kind env (suc (suc depth)) subject kind s ≡ set_kind env 2 subject kind s
unfolding set_kind
set_kind_ends env depth subject kind s =
    full-same env depth (trim_space subject) kind (validate_operation s.system subject) s
