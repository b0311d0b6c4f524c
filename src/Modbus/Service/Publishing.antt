-- ===== src/Modbus/Service/Publishing.antt =====
-- modbus/service.go: publish, with the values that were published last.
use go_scada.Base.{
  Text, Bool, true, false, not, ◌&&◌, ◌≡◌, List, [], ◌∷◌, Option, none, some, ok, err, Check,
  if◌then◌else◌, lookup, insert, lookup-insert, text_eq, text_eq_iff, refl, ◌∙◌, ap, arith, wrap,
  is_ok, subst, codes,
}
use go_scada.Value.{Value, value_eq}
use go_scada.Address.{ValueType}
use go_scada.Modbus.Service.{Service}

pub data PublishError : Type 0 where
  wrong_type : ValueType → PublishError
  unsupported_type : Text → PublishError
  publisher_failed : Text → PublishError

-- The type switch of publishValue; `outcome` is what the publisher returns if it is called.
unfoldable pub publish_value : Check Text → ValueType → Value → Check PublishError
publish_value outcome ValueType.bool (Value.bool b) = wrap publisher_failed outcome
publish_value outcome ValueType.int64 (Value.int64 n) = wrap publisher_failed outcome
publish_value outcome ValueType.float64 (Value.float64 b) = wrap publisher_failed outcome
publish_value outcome (ValueType.other name) value = err (unsupported_type name)
publish_value outcome ValueType.string value = err (unsupported_type (codes "string"))
publish_value outcome kind value = err (wrong_type kind)

-- `ok && last == value`
abbrev pub same_value : Option Value → Value → Bool
same_value none value = false
same_value (some last) value = value_eq last value

unfoldable pub same_as_last : Text → Value → Service → Bool
same_as_last subject value s = same_value (lookup subject s.last_published) value

unfoldable pub remember_published : Text → Value → Service → Service
remember_published subject value s = record s {
  last_published = insert subject value s.last_published;
}

-- The result of publish, whether the publisher took the value, and the service afterwards.
pub record Publication : Type 0 where
  pub result : Check PublishError
  pub taken : Bool
  pub service : Service

-- `publish` from publishValue on.
published : Text → Value → Check PublishError → Service → Publication
published subject value (ok _) s = record {
  result = ok tt;
  taken = true;
  service = remember_published subject value s;
}
published subject value (err e) s = record { result = err e; taken = false; service = s }

unfoldable pub publish : Check Text → Text → ValueType → Value → Bool → Service → Publication
unfolding published
publish outcome subject kind value publish_on_change s =
    if publish_on_change && same_as_last subject value s
    then record { result = ok tt; taken = false; service = s }
    else published subject value (publish_value outcome kind value) s

-- A call of publish for a point that is published on change, with the publisher's answer.
pub record Call : Type 0 where
  pub outcome : Check Text
  pub subject : Text
  pub kind : ValueType
  pub value : Value

taken_if : Bool → Text → Value → List (Text × Value) → List (Text × Value)
taken_if true subject value rest = (subject, value) ∷ rest
taken_if false subject value rest = rest

-- The values that the publisher takes in a sequence of calls.
unfoldable pub publish_calls : List Call → Service → List (Text × Value)
unfolding taken_if
publish_calls [] s = []
publish_calls (c ∷ cs) s =
    let p = publish c.outcome c.subject c.kind c.value true s in
    taken_if p.taken c.subject c.value (publish_calls cs p.service)

-- The calls for one subject, and the values taken for it.
abbrev pub calls_of : Text → List Call → List Call
calls_of subject [] = []
calls_of subject (c ∷ cs) =
    let rest = calls_of subject cs in if text_eq c.subject subject then c ∷ rest else rest

abbrev pub values_of : Text → List (Text × Value) → List Value
values_of subject [] = []
values_of subject ((name, v) ∷ rest) =
    let others = values_of subject rest in if text_eq name subject then v ∷ others else others

-- The value can be published: it has the point's type, and the publisher takes it.
abbrev pub accepted : Call → Bool
accepted c = is_ok (publish_value c.outcome c.kind c.value)

-- The values of the calls that differ from the one before that was accepted.
abbrev pub changes : Option Value → List Call → List Value
changes last [] = []
changes last (c ∷ cs) =
    let kept = changes last cs in
    let next = changes (some c.value) cs in
    if same_value last c.value then kept else if accepted c then c.value ∷ next else kept

publish-taken :
    (outcome : Check Text) (subject : Text) (kind : ValueType) (value : Value) (s : Service)
    → (publish outcome subject kind value true s).taken ≡ (
        not (same_value (lookup subject s.last_published) value)
        && is_ok (publish_value outcome kind value))
unfolding publish published same_as_last
publish-taken outcome subject kind value s = ground arith

publish-last :
    (outcome : Check Text) (subject name : Text) (kind : ValueType) (value : Value) (s : Service)
    → let p = publish outcome subject kind value true s in
      lookup name p.service.last_published
      ≡ (if p.taken && text_eq subject name then some value else lookup name s.last_published)
unfolding publish published remember_published
publish-last outcome subject name kind value s =
    ground (arith, lookup-insert subject name value s.last_published)

values_of-taken_if :
    (taken : Bool) (subject name : Text) (value : Value) (rest : List (Text × Value))
    → values_of name (taken_if taken subject value rest)
      ≡ (if taken && text_eq subject name then value ∷ values_of name rest else values_of name rest)
unfolding taken_if
values_of-taken_if true subject name value rest = refl
values_of-taken_if false subject name value rest = refl

changes-step :
    (taken same : Bool) (own last next : Option Value) (c : Call) (cs : List Call)
    (rest : List Value)
    → taken ≡ (not (same_value own c.value) && accepted c)
    → (same ≡ true → own ≡ last)
    → next ≡ (if taken && same then some c.value else last)
    → rest ≡ changes next cs
    → (if taken && same then c.value ∷ rest else rest) ≡ changes last (if same then c ∷ cs else cs)
changes-step taken false own last next c cs rest t o n r =
    ground (arith, ap (λ l. changes l cs) n, r)
changes-step true true own last next c cs rest t o n r =
    let e = o refl in
    subst (λ l. (c.value ∷ rest) ≡ changes l (c ∷ cs)) e
      (ground (arith, t, ap (λ l. changes l cs) n, r))
changes-step false true own last next c cs rest t o n r =
    ground (arith, t, o refl, ap (λ l. changes l cs) n, r)

-- For points that are published on change, the publisher takes for a subject the values that differ
-- from the last one taken for it, whatever comes in between for other subjects. A value that could not
-- be published does not count as the last one, so that it is tried again.
pub publish_calls-changes :
    (name : Text) (cs : List Call) (s : Service)
    → values_of name (publish_calls cs s)
      ≡ changes (lookup name s.last_published) (calls_of name cs)
unfolding publish_calls
publish_calls-changes name [] s = refl
publish_calls-changes name (c ∷ cs) s =
    let p = publish c.outcome c.subject c.kind c.value true s in
    values_of-taken_if p.taken c.subject name c.value (publish_calls cs p.service)
    ∙ changes-step p.taken (text_eq c.subject name) (lookup c.subject s.last_published)
        (lookup name s.last_published) (lookup name p.service.last_published) c (calls_of name cs)
        (values_of name (publish_calls cs p.service))
        (publish-taken c.outcome c.subject c.kind c.value s)
        (λ same. ap (λ k. lookup k s.last_published) ((text_eq_iff c.subject name).0 same))
        (publish-last c.outcome c.subject name c.kind c.value s)
        (publish_calls-changes name cs p.service)
