-- ===== src/Prelude/Among.antt =====
-- The entries of a list, as a type that can be taken apart.
use mathlib.Core.Path.{◌≡◌}
use mathlib.Core.List.{List, [], ◌∷◌, ◌++◌}
use mathlib.Core.Logic.{◌⊎◌, inl, inr}

-- One of the entries of a list.
abbrev pub IsAmong : {X : Type 0} → X → List X → Type 0
IsAmong x [] = ⊥
IsAmong x (y ∷ ys) = (x ≡ y) ⊎ IsAmong x ys

pub IsAmong-front : {X : Type 0} (xs ys : List X) (x : X) → IsAmong x xs → IsAmong x (xs ++ ys)
IsAmong-front [] ys x h = absurd h
IsAmong-front (z ∷ xs) ys x (inl same) = inl same
IsAmong-front (z ∷ xs) ys x (inr later) = inr (IsAmong-front xs ys x later)

pub IsAmong-back : {X : Type 0} (xs ys : List X) (x : X) → IsAmong x ys → IsAmong x (xs ++ ys)
IsAmong-back [] ys x h = h
IsAmong-back (z ∷ xs) ys x h = inr (IsAmong-back xs ys x h)

pub IsAmong-take_out :
    {X : Type 0} (front back : List X) (y x : X)
    → IsAmong x (front ++ (y ∷ back))
    → (x ≡ y) ⊎ IsAmong x (front ++ back)
IsAmong-take_out [] back y x h = h
IsAmong-take_out (z ∷ front) back y x (inl same) = inr (inl same)
IsAmong-take_out (z ∷ front) back y x (inr later) = elim (IsAmong-take_out front back y x later) [
  | inl same ↦ inl same
  | inr others ↦ inr (inr others)
]
