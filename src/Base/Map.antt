-- ===== src/Base/Map.antt =====
-- Go maps as association lists. A write replaces the entry of its key or adds one at the end.
pub mod Weight
pub mod Values
use mathlib.Core.Path.{◌≡◌, refl}
use mathlib.Core.Logic.{ite}
use mathlib.Core.Bool.{Bool, true, false}
use mathlib.Core.Option.{Option, none, some}
use mathlib.Core.List.{List, [], ◌∷◌}
use native.Mathlib.Omega.{arith}

abbrev pub Map {ℓ} : Type ℓ → Type ℓ → Type ℓ
Map K V = List (K × V)

module _ {ℓ} {K V : Type ℓ} (dec : Discrete K) where
  unfoldable pub lookup : K → Map K V → Option V
  lookup k [] = none
  lookup k ((j, v) ∷ m) = ite (dec j k) (some v) (lookup k m)

  unfoldable pub insert : K → V → Map K V → Map K V
  insert k v [] = (k, v) ∷ []
  insert k v ((j, w) ∷ m) = ite (dec j k) ((k, v) ∷ m) ((j, w) ∷ insert k v m)

  unfoldable pub erase : K → Map K V → Map K V
  erase k [] = []
  erase k ((j, v) ∷ m) = ite (dec j k) (erase k m) ((j, v) ∷ erase k m)

  unfoldable pub member : K → Map K V → Bool
  unfolding lookup
  member k m = elim (lookup k m) [ none ↦ false | some v ↦ true ]

  -- No key stands twice.
  abbrev pub Distinct : Map K V → Type ℓ
  Distinct [] = Unit
  Distinct ((j, v) ∷ m) = (lookup j m ≡ none) × Distinct m

  pub lookup-nil : (k : K) → lookup k [] ≡ none
  unfolding lookup
  lookup-nil k = refl

  pub lookup-insert :
      (k j : K) (v : V) (m : Map K V)
      → lookup j (insert k v m) ≡ ite (dec k j) (some v) (lookup j m)
  unfolding lookup insert
  lookup-insert k j v [] = ground arith
  lookup-insert k j v ((i, w) ∷ m) = ground (arith, lookup-insert k j v m)

  pub lookup-erase :
      (k j : K) (m : Map K V) → lookup j (erase k m) ≡ ite (dec k j) none (lookup j m)
  unfolding lookup erase
  lookup-erase k j [] = ground arith
  lookup-erase k j ((i, w) ∷ m) = ground (arith, lookup-erase k j m)

  pub insert-Distinct : (k : K) (v : V) (m : Map K V) → Distinct m → Distinct (insert k v m)
  unfolding lookup insert
  insert-Distinct k v [] d = (refl, tt)
  insert-Distinct k v ((j, w) ∷ m) d =
      ground (arith, insert-Distinct k v m d.1, lookup-insert k j v m)

  pub erase-Distinct : (k : K) (m : Map K V) → Distinct m → Distinct (erase k m)
  unfolding lookup erase
  erase-Distinct k [] d = tt
  erase-Distinct k ((j, w) ∷ m) d = ground (arith, erase-Distinct k m d.1, lookup-erase k j m)

  -- A map in which every lookup fails is empty.
  pub empty_of_lookup : (m : Map K V) → ((k : K) → lookup k m ≡ none) → m ≡ []
  unfolding lookup
  empty_of_lookup [] h = refl
  empty_of_lookup ((j, v) ∷ m) h = absurd (ground (arith, h j))
