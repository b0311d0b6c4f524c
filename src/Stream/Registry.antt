-- ===== src/Stream/Registry.antt =====
-- stream/registry.go: the announcement of a subject that is written for the first time.
use go_scada.Base.{
  Text, [], ◌∷◌, Option, none, some, codes, ◌==◌, if◌then◌else◌, trim_space, is_empty,
}

abbrev pub created_subject : Text
created_subject = codes "registry.subject.created"

pub record Created : Type 0 where
  pub subject : Text
  pub suffix : Text

-- What follows the last '.', if there is one.
unfoldable pub after_last_dot : Text → Option Text
after_last_dot [] = none
after_last_dot (c ∷ s) = elim (after_last_dot s) [
  | some rest ↦ some rest
  | none ↦ if c == b'.' then some s else none
]

unfoldable pub last_token : Text → Text
last_token subject = elim (after_last_dot (trim_space subject)) [
  | some rest ↦ rest
  | none ↦ trim_space subject
]

unfoldable pub created_of : Text → Created
created_of relative = record { subject = relative; suffix = last_token relative }

-- DecodeSubjectCreated after json.Unmarshal.
unfoldable pub normalize_created : Created → Created
normalize_created c =
    let subject = trim_space c.subject in
    let suffix = trim_space c.suffix in
    record { subject = subject; suffix = if is_empty suffix then last_token subject else suffix }
