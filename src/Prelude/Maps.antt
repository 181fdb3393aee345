-- ===== src/Prelude/Maps.antt =====
-- A Go map with string keys: an association list in which `insert` keeps the keys distinct.
use Prim.Native.Nat.{◌≤◌, suc}
use mathlib.Core.Path.{◌≡◌, refl}
use mathlib.Core.Bool.{false}
use mathlib.Core.List.{List, [], ◌∷◌}
use mathlib.Core.Option.{Option, none, some}
use native.Mathlib.Omega.{arith}
use ultipa_go_driver.Prelude.Tests.{if◌then◌else◌}
use ultipa_go_driver.Prelude.Lists.{length}
use ultipa_go_driver.Prelude.Texts.{Text, text_eq, text_eq_iff, text_eq_refl}

module _ {ℓ} {V : Type ℓ} where
  unfoldable pub lookup : Text → List (Text × V) → Option V
  lookup k [] = none
  lookup k ((j, v) ∷ m) = if text_eq j k then some v else lookup k m

  unfoldable pub insert : Text → V → List (Text × V) → List (Text × V)
  insert k v [] = (k, v) ∷ []
  insert k v ((j, w) ∷ m) = if text_eq j k then (k, v) ∷ m else (j, w) ∷ insert k v m

  pub lookup-insert :
      (k j : Text) (v : V) (m : List (Text × V))
      → lookup j (insert k v m) ≡ (if text_eq k j then some v else lookup j m)
  unfolding lookup insert
  lookup-insert k j v [] = refl
  lookup-insert k j v ((i, w) ∷ m) =
      ground (arith, text_eq_iff k j, text_eq_iff i k, text_eq_iff i j, lookup-insert k j v m)

  pub length-insert-le :
      (k : Text) (v : V) (m : List (Text × V)) → length (insert k v m) ≤ suc (length m)
  unfolding insert
  length-insert-le k v [] = omega arith
  length-insert-le k v ((i, w) ∷ m) = ground (arith, length-insert-le k v m)

pub lookup-insert_other {ℓ} :
    {V : Type ℓ} (name n : Text) (v : V) (m : List (Text × V))
    → text_eq name n ≡ false
    → lookup n (insert name v m) ≡ lookup n m
lookup-insert_other name n v m miss = rw (lookup-insert name n v m, miss) refl

pub lookup-insert_same {ℓ} :
    {V : Type ℓ} (name : Text) (v : V) (m : List (Text × V))
    → lookup name (insert name v m) ≡ some v
lookup-insert_same name v m = rw (lookup-insert name name v m, text_eq_refl name) refl

pub lookup-nil {ℓ} : {V : Type ℓ} (name : Text) → lookup {V = V} name [] ≡ none
unfolding lookup
lookup-nil name = refl
