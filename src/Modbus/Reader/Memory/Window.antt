-- ===== src/Modbus/Reader/Memory/Window.antt =====
-- A stretch of a memory, and its parts.
use go_scada.Base.{
  ℕ, zero, suc, ◌+◌, ◌-◌, ◌≤◌, ◌<◌, ◌≡◌, refl, ap, List, [], ◌∷◌, some, arith, length, take, drop,
  get_elem?,
}

module _ {A : Type 0} (f : ℕ → A) where
  -- f a, f (a + 1), …, n values
  abbrev pub window : ℕ → ℕ → List A
  window a zero = []
  window a (suc n) = f a ∷ window (a + 1) n

  pub length-window : (a n : ℕ) → length (window a n) ≡ n
  length-window a zero = refl
  length-window a (suc n) = ap suc (length-window (a + 1) n)

  pub get_elem?-window : (a n i j : ℕ) → i < n → a + i ≡ j → get_elem? (window a n) i ≡ some (f j)
  get_elem?-window a zero i j h e = absurd (omega arith)
  get_elem?-window a (suc n) zero j h e = let e' : a ≡ j = omega arith in rw e'
  get_elem?-window a (suc n) (suc i) j h e =
      get_elem?-window (a + 1) n i j (omega arith) (omega arith)

  drop-window : (a n i j : ℕ) → i ≤ n → a + i ≡ j → drop i (window a n) ≡ window j (n - i)
  drop-window a n zero j h e =
      let e' : a ≡ j = omega arith in let e'' : n - 0 ≡ n = omega arith in rw (e', e'')
  drop-window a zero (suc i) j h e = absurd (omega arith)
  drop-window a (suc n) (suc i) j h e =
      let e' : suc n - suc i ≡ n - i = omega arith in
      rw e' (drop-window (a + 1) n i j (omega arith) (omega arith))

  take-window : (a n c : ℕ) → c ≤ n → take c (window a n) ≡ window a c
  take-window a n zero h = refl
  take-window a zero (suc c) h = absurd (omega arith)
  take-window a (suc n) (suc c) h = ap (λ l. f a ∷ l) (take-window (a + 1) n c (omega arith))

  -- xs[i:i+c] of a stretch
  pub take-drop-window :
      (a n i c j : ℕ) → i + c ≤ n → a + i ≡ j → take c (drop i (window a n)) ≡ window j c
  take-drop-window a n i c j h e =
      rw (drop-window a n i j (omega arith) e) (take-window j (n - i) c (omega arith))
