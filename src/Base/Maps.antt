-- ===== src/Base/Maps.antt =====
-- Go maps with string keys, as association lists. A lookup sees the first entry of a key, and
-- `insert` leaves one entry for the key it writes. Where the program ranges over a map, Go leaves the
-- order open and the model takes the order of the list.
use mathlib.Core.Path.{◌≡◌, refl}
use mathlib.Core.Option.{Option, none, some}
use mathlib.Core.List.{List, [], ◌∷◌}
use native.Mathlib.Omega.{arith}
use mathlib.Core.Logic.{inl, inr}
use go_scada.Base.Tests.{if◌then◌else◌, Bool-cases}
use go_scada.Base.Strings.{Text, text_eq, text_eq_iff, text_eq_refl}

abbrev pub Dict {ℓ} : Type ℓ → Type ℓ
Dict V = List (Text × V)

module _ {ℓ} {V : Type ℓ} where
  -- v, ok := m[k]
  unfoldable pub lookup : Text → Dict V → Option V
  lookup k [] = none
  lookup k ((j, v) ∷ m) = if text_eq j k then some v else lookup k m

  -- delete(m, k)
  unfoldable pub remove : Text → Dict V → Dict V
  remove k [] = []
  remove k ((j, v) ∷ m) = let rest = remove k m in if text_eq j k then rest else (j, v) ∷ rest

  -- m[k] = v
  unfoldable pub insert : Text → V → Dict V → Dict V
  insert k v m = (k, v) ∷ remove k m

  -- The keys that `range m` visits.
  abbrev pub keys : Dict V → List Text
  keys [] = []
  keys ((k, _) ∷ m) = k ∷ keys m

  pub lookup-remove :
      (k j : Text) (m : Dict V) → lookup j (remove k m) ≡ (if text_eq k j then none else lookup j m)
  unfolding lookup remove
  lookup-remove k j [] = ground arith
  lookup-remove k j ((i, v) ∷ m) =
      ground (arith, text_eq_iff i k, text_eq_iff i j, text_eq_iff k j, lookup-remove k j m)

  pub lookup-insert :
      (k j : Text) (v : V) (m : Dict V)
      → lookup j (insert k v m) ≡ (if text_eq k j then some v else lookup j m)
  unfolding lookup insert
  lookup-insert k j v m = ground (arith, lookup-remove k j m)

  pub lookup-insert_self : (k : Text) (v : V) (m : Dict V) → lookup k (insert k v m) ≡ some v
  lookup-insert_self k v m = rw (lookup-insert, text_eq_refl)

  pub lookup-empty : (k : Text) → lookup k [] ≡ none
  unfolding lookup
  lookup-empty k = refl

module _ {ℓ} {V : Type ℓ} where
  -- A key has one entry.
  abbrev pub Once : Dict V → Type ℓ
  Once [] = Unit
  Once ((k, v) ∷ m) = (lookup k m ≡ none) × Once m

  pub Once-remove : (k : Text) (m : Dict V) → Once m → Once (remove k m)
  unfolding remove
  Once-remove k [] h = tt
  Once-remove k ((j, v) ∷ m) (h, hs) = elim (Bool-cases (text_eq j k)) [
    | inl e ↦ rw e (Once-remove k m hs)
    | inr e ↦ rw e (ground (arith, lookup-remove k j m, h), Once-remove k m hs)
  ]

  pub Once-insert : (k : Text) (v : V) (m : Dict V) → Once m → Once (insert k v m)
  unfolding insert
  Once-insert k v m h = (rw lookup-remove (ground (arith, text_eq_iff k k)), Once-remove k m h)

pub ruleset dict_laws = (lookup-remove, lookup-insert, lookup-empty)
