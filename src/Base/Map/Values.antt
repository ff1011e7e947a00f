-- ===== src/Base/Map/Values.antt =====
-- A property of every value of a map.
use mathlib.Core.Path.{◌≡◌}
use mathlib.Core.Option.{some}
use mathlib.Core.List.{[], ◌∷◌}
use native.Mathlib.Omega.{arith}
use rdma_demo.Base.Map.{Map, lookup, insert, erase}

module _ {ℓ κ} {K V : Type ℓ} where
  abbrev pub AllValues : (V → Type κ) → Map K V → Type κ
  AllValues P [] = Unit
  AllValues P ((k, v) ∷ m) = P v × AllValues P m

module _ {ℓ} {K V : Type ℓ} (dec : Discrete K) (P : V → Type ℓ) where
  pub AllValues-lookup :
      (k : K) (v : V) (m : Map K V) → AllValues P m → lookup dec k m ≡ some v → P v
  unfolding lookup
  AllValues-lookup k v [] a h = absurd (ground arith)
  AllValues-lookup k v ((j, w) ∷ m) a h = ground (arith, AllValues-lookup k v m a.1)

  pub AllValues-insert :
      (k : K) (v : V) (m : Map K V) → P v → AllValues P m → AllValues P (insert dec k v m)
  unfolding insert
  AllValues-insert k v [] p a = (p, tt)
  AllValues-insert k v ((j, w) ∷ m) p a = ground (arith, AllValues-insert k v m p a.1)

  pub AllValues-erase : (k : K) (m : Map K V) → AllValues P m → AllValues P (erase dec k m)
  unfolding erase
  AllValues-erase k [] a = tt
  AllValues-erase k ((j, w) ∷ m) a = ground (arith, AllValues-erase k m a.1)
