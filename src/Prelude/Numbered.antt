-- ===== src/Prelude/Numbered.antt =====
-- A Go map with number keys: an association list in which `put_at` keeps the keys distinct.
use Prim.Native.Nat.{ℕ}
use mathlib.Core.Path.{◌≡◌, refl}
use mathlib.Core.List.{List, [], ◌∷◌}
use mathlib.Core.Option.{Option, none, some}
use native.Mathlib.Omega.{arith}
use ultipa_go_driver.Prelude.Tests.{if◌then◌else◌, ◌==◌}

module _ {ℓ} {V : Type ℓ} where
  unfoldable pub get_at : ℕ → List (ℕ × V) → Option V
  get_at k [] = none
  get_at k ((j, v) ∷ m) = if j == k then some v else get_at k m

  unfoldable pub put_at : ℕ → V → List (ℕ × V) → List (ℕ × V)
  put_at k v [] = (k, v) ∷ []
  put_at k v ((j, w) ∷ m) = if j == k then (k, v) ∷ m else (j, w) ∷ put_at k v m

  pub get_at-put_at :
      (k j : ℕ) (v : V) (m : List (ℕ × V))
      → get_at j (put_at k v m) ≡ (if k == j then some v else get_at j m)
  unfolding get_at put_at
  get_at-put_at k j v [] = refl
  get_at-put_at k j v ((i, w) ∷ m) = ground (arith, get_at-put_at k j v m)
