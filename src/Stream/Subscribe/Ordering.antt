-- ===== src/Stream/Subscribe/Ordering.antt =====
-- stream/subscribe.go: the order of what deliveryState.accept lets through.
use go_scada.Base.{Text, List, [], ◌∷◌, Option, none, some, ◌≢◌, ◌≤◌, text_eq, if◌then◌else◌}
use go_scada.Stream.Subscribe.Events.{Accepted}
use go_scada.Stream.Subscribe.{Last, last_of}

-- The next message of a subject is another one, and not older.
pub record Follows (previous next : Last) : Type 0 where
  pub another : next.id ≢ [] → previous.id ≢ next.id
  pub later : previous.observed ≤ next.observed

-- Each follows the one before it.
abbrev pub Chain : Option Last → List Last → Type 0
Chain o [] = Unit
Chain none (x ∷ xs) = Chain (some x) xs
Chain (some previous) (x ∷ xs) = Follows previous x × Chain (some x) xs

abbrev pub last_if : Text → Accepted → List Last → List Last
last_if full a rest = if text_eq a.full full then last_of a.message ∷ rest else rest

abbrev pub of_subject : Text → List Accepted → List Last
of_subject full [] = []
of_subject full (a ∷ rest) = last_if full a (of_subject full rest)
