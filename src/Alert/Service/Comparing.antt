-- ===== src/Alert/Service/Comparing.antt =====
-- alert/service.go: reflect.DeepEqual on two states. A slice that is nil and one that is empty are one
-- list here; MarshalState writes neither.
use go_scada.Base.{
  Text, Bool, true, false, not, ◌&&◌, ◌==ℤ◌, ==ℤ_iff, ◌==◌, List, [], ◌∷◌, Option, none, some,
  text_eq, text_eq_iff, ◌≡◌, refl, ap₂, arith, &&-eq_true,
}
use go_scada.Alert.Model.{Presentation, Time, State}

abbrev pub same_flags : Bool → Bool → Bool
same_flags true b = b
same_flags false b = not b

abbrev pub time_eq : Time → Time → Bool
time_eq a b = a.instant == b.instant && a.offset ==ℤ b.offset

-- Two pointers to times: both nil, or pointers to equal times.
abbrev pub time_option_eq : Option Time → Option Time → Bool
time_option_eq none none = true
time_option_eq (some a) (some b) = time_eq a b
time_option_eq _ _ = false

abbrev pub texts_eq : List Text → List Text → Bool
texts_eq [] [] = true
texts_eq (x ∷ xs) (y ∷ ys) = text_eq x y && texts_eq xs ys
texts_eq _ _ = false

unfoldable pub presentation_eq : Presentation → Presentation → Bool
presentation_eq p q =
    text_eq p.property q.property
    && text_eq p.color q.color
    && text_eq p.abbreviation q.abbreviation
    && text_eq p.short_sign q.short_sign
    && p.priority ==ℤ q.priority
    && same_flags p.requires_acknowledgement q.requires_acknowledgement

unfoldable pub state_eq : State → State → Bool
state_eq s t =
    s.version ==ℤ t.version
    && same_flags s.active t.active
    && same_flags s.pending t.pending
    && presentation_eq s.presentation t.presentation
    && text_eq s.text t.text
    && same_flags s.acknowledged t.acknowledged
    && time_option_eq s.came_time t.came_time
    && time_option_eq s.went_time t.went_time
    && time_option_eq s.ack_time t.ack_time
    && text_eq s.dominant t.dominant
    && texts_eq s.members t.members
    && text_eq s.episode_id t.episode_id

same_flags→eq : (a b : Bool) → same_flags a b ≡ true → a ≡ b
same_flags→eq a b h = ground arith

time_option_eq→eq : (a b : Option Time) → time_option_eq a b ≡ true → a ≡ b
time_option_eq→eq none none h = refl
time_option_eq→eq (some a) (some b) h = ground (
  arith,
  ==ℤ_iff a.offset b.offset,
  &&-eq_true (a.instant == b.instant) (a.offset ==ℤ b.offset) h,
)
time_option_eq→eq none (some b) h = cc
time_option_eq→eq (some a) none h = cc

texts_eq→eq : (a b : List Text) → texts_eq a b ≡ true → a ≡ b
texts_eq→eq [] [] h = refl
texts_eq→eq (x ∷ xs) (y ∷ ys) h =
    let (same, rest) = &&-eq_true (text_eq x y) (texts_eq xs ys) h in
    ap₂ (λ z zs. z ∷ zs) ((text_eq_iff x y).0 same) (texts_eq→eq xs ys rest)
texts_eq→eq [] (y ∷ ys) h = cc
texts_eq→eq (x ∷ xs) [] h = cc

presentation_eq→eq : (p q : Presentation) → presentation_eq p q ≡ true → p ≡ q
unfolding presentation_eq
presentation_eq→eq p q h = ground (
  arith,
  text_eq_iff p.property q.property,
  text_eq_iff p.color q.color,
  text_eq_iff p.abbreviation q.abbreviation,
  text_eq_iff p.short_sign q.short_sign,
  ==ℤ_iff p.priority q.priority,
  same_flags→eq p.requires_acknowledgement q.requires_acknowledgement,
)

State-ext :
    {s t : State}
    → s.version ≡ t.version
    → s.active ≡ t.active
    → s.pending ≡ t.pending
    → s.presentation ≡ t.presentation
    → s.text ≡ t.text
    → s.acknowledged ≡ t.acknowledged
    → s.came_time ≡ t.came_time
    → s.went_time ≡ t.went_time
    → s.ack_time ≡ t.ack_time
    → s.dominant ≡ t.dominant
    → s.members ≡ t.members
    → s.episode_id ≡ t.episode_id
    → s ≡ t
State-ext a b c d e f g h i j k l = cc

-- Two states that reflect.DeepEqual accepts are equal.
pub state_eq→eq : (s t : State) → state_eq s t ≡ true → s ≡ t
unfolding state_eq
state_eq→eq s t h =
    let (h1, episode) = &&-eq_true _ _ h in
    let (h2, members) = &&-eq_true _ _ h1 in
    let (h3, dominant) = &&-eq_true _ _ h2 in
    let (h4, ack) = &&-eq_true _ _ h3 in
    let (h5, went) = &&-eq_true _ _ h4 in
    let (h6, came) = &&-eq_true _ _ h5 in
    let (h7, acknowledged) = &&-eq_true _ _ h6 in
    let (h8, text) = &&-eq_true _ _ h7 in
    let (h9, presentation) = &&-eq_true _ _ h8 in
    let (h10, pending) = &&-eq_true _ _ h9 in
    let (version, active) = &&-eq_true _ _ h10 in
    State-ext ((==ℤ_iff s.version t.version).0 version) (same_flags→eq s.active t.active active)
      (same_flags→eq s.pending t.pending pending)
      (presentation_eq→eq s.presentation t.presentation presentation)
      ((text_eq_iff s.text t.text).0 text)
      (same_flags→eq s.acknowledged t.acknowledged acknowledged)
      (time_option_eq→eq s.came_time t.came_time came)
      (time_option_eq→eq s.went_time t.went_time went) (time_option_eq→eq s.ack_time t.ack_time ack)
      ((text_eq_iff s.dominant t.dominant).0 dominant) (texts_eq→eq s.members t.members members)
      ((text_eq_iff s.episode_id t.episode_id).0 episode)
