-- ===== src/Base/Sort.antt =====
-- sort.Slice and sort.Strings, by insertion. The program sorts by keys that differ, so the result
-- does not depend on the method.
use mathlib.Core.Bool.{Bool}
use mathlib.Core.List.{List, [], ◌∷◌}
use rdma_demo.Base.Tests.{if◌then◌else◌}

module _ {ℓ} {A : Type ℓ} (less : A → A → Bool) where
  -- Before the first element that is not smaller.
  unfoldable pub insert_sorted : A → List A → List A
  insert_sorted a [] = a ∷ []
  insert_sorted a (x ∷ xs) = if less x a then x ∷ insert_sorted a xs else a ∷ x ∷ xs

  unfoldable pub sort_by : List A → List A
  unfolding insert_sorted
  sort_by [] = []
  sort_by (x ∷ xs) = insert_sorted x (sort_by xs)
