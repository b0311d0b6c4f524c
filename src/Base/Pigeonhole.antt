-- ===== src/Base/Pigeonhole.antt =====
-- Holes that each take one of a list of items at most: there are no more items than holes.
use go_scada.Base.Lists.{length, All, Any}
use Prim.Native.Nat.{suc, ◌≤◌}
use mathlib.Core.Path.{◌≡◌, refl}
use mathlib.Core.Logic.{inl, inr}
use mathlib.Core.List.{List, [], ◌∷◌}
use native.Mathlib.Omega.{arith}
use go_scada.Base.Sorting.{Sorted}

module _ {W : Type 0} where
  -- The list without the element that the proof points at.
  drop_at : (P : W → Type 0) (ws : List W) → Any P ws → List W
  drop_at P [] h = elim h [ ]
  drop_at P (w ∷ ws) (inl h) = ws
  drop_at P (w ∷ ws) (inr h) = w ∷ drop_at P ws h

  length-drop_at :
      (P : W → Type 0) (ws : List W) (h : Any P ws) → suc (length (drop_at P ws h)) ≡ length ws
  unfolding drop_at
  length-drop_at P [] h = elim h [ ]
  length-drop_at P (w ∷ ws) (inl h) = refl
  length-drop_at P (w ∷ ws) (inr h) = omega (arith, length-drop_at P ws h)

  Any-drop_at :
      (P Q : W → Type 0) (ws : List W) (h : Any P ws)
      → ((w : W) → P w → Q w → ⊥)
      → Any Q ws
      → Any Q (drop_at P ws h)
  unfolding drop_at
  Any-drop_at P Q [] h apart k = elim h [ ]
  Any-drop_at P Q (w ∷ ws) (inl h) apart (inl k) = absurd (apart w h k)
  Any-drop_at P Q (w ∷ ws) (inl h) apart (inr k) = k
  Any-drop_at P Q (w ∷ ws) (inr h) apart (inl k) = inl k
  Any-drop_at P Q (w ∷ ws) (inr h) apart (inr k) = inr (Any-drop_at P Q ws h apart k)

module _ {A W : Type 0} (In : A → W → Type 0) (R : A → A → Type 0)
    (apart : (a b : A) (w : W) → R a b → In a w → In b w → ⊥) where
  All-drop_at :
      (a : A) (bs : List A) (ws : List W) (h : Any (In a) ws)
      → All (R a) bs
      → All (λ b. Any (In b) ws) bs
      → All (λ b. Any (In b) (drop_at (In a) ws h)) bs
  All-drop_at a [] ws h r k = tt
  All-drop_at a (b ∷ bs) ws h r k = (
    Any-drop_at (In a) (In b) ws h (λ w i j. apart a b w r.0 i j) k.0,
    All-drop_at a bs ws h r.1 k.1,
  )

  -- If no hole takes two related items, and each item is in some hole, the holes are as many at least.
  pub pigeonhole :
      (xs : List A) (ws : List W)
      → Sorted R xs
      → All (λ a. Any (In a) ws) xs
      → length xs ≤ length ws
  pigeonhole [] ws s k = omega arith
  pigeonhole (a ∷ xs) ws s k = omega (
    arith,
    length-drop_at (In a) ws k.0,
    pigeonhole xs (drop_at (In a) ws k.0) s.1 (All-drop_at a xs ws k.0 s.0 k.1),
  )
