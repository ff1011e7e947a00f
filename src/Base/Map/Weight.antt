-- ===== src/Base/Map/Weight.antt =====
-- The sum of a measure over the values of a map.
use Prim.Native.Nat.{ℕ, ◌+◌, ◌≤◌}
use mathlib.Core.Path.{◌≡◌, refl}
use mathlib.Core.Option.{Option, none, some}
use mathlib.Core.List.{[], ◌∷◌}
use native.Mathlib.Omega.{arith}
use rdma_demo.Base.Map.{Map, lookup, insert, erase, Distinct}

module _ {ℓ} {K V : Type ℓ} where
  abbrev pub weight : (V → ℕ) → Map K V → ℕ
  weight f [] = 0
  weight f ((k, v) ∷ m) = f v + weight f m

module _ {ℓ} {V : Type ℓ} where
  abbrev pub weight_of : (V → ℕ) → Option V → ℕ
  weight_of f none = 0
  weight_of f (some v) = f v

module _ {ℓ} {K V : Type ℓ} (dec : Discrete K) (f : V → ℕ) where
  pub weight-insert :
      (k : K) (v : V) (m : Map K V)
      → weight f (insert dec k v m) + weight_of f (lookup dec k m) ≡ weight f m + f v
  unfolding lookup insert
  weight-insert k v [] = omega arith
  weight-insert k v ((j, w) ∷ m) = ground (arith, weight-insert k v m)

  weight-erase_absent :
      (k : K) (m : Map K V) → lookup dec k m ≡ none → weight f (erase dec k m) ≡ weight f m
  unfolding lookup erase
  weight-erase_absent k [] h = refl
  weight-erase_absent k ((j, w) ∷ m) h = ground (arith, weight-erase_absent k m)

  pub weight-erase :
      (k : K) (m : Map K V)
      → Distinct dec m
      → weight f (erase dec k m) + weight_of f (lookup dec k m) ≡ weight f m
  unfolding lookup erase
  weight-erase k [] d = omega arith
  weight-erase k ((j, w) ∷ m) d = ground (arith, weight-erase k m d.1, weight-erase_absent k m)

  -- One value weighs at most as much as all.
  pub weight_of-le : (k : K) (m : Map K V) → weight_of f (lookup dec k m) ≤ weight f m
  unfolding lookup
  weight_of-le k [] = omega arith
  weight_of-le k ((j, w) ∷ m) = ground (arith, weight_of-le k m)

  pub weight-erase_le_self : (k : K) (m : Map K V) → weight f (erase dec k m) ≤ weight f m
  unfolding erase
  weight-erase_le_self k [] = omega arith
  weight-erase_le_self k ((j, w) ∷ m) = ground (arith, weight-erase_le_self k m)

  -- Without a key, the others weigh at most the rest.
  pub weight-erase_le :
      (k : K) (m : Map K V) → weight f (erase dec k m) + weight_of f (lookup dec k m) ≤ weight f m
  unfolding lookup erase
  weight-erase_le k [] = omega arith
  weight-erase_le k ((j, w) ∷ m) = ground (arith, weight-erase_le k m, weight-erase_le_self k m)
