-- ===== src/Base/StrOrder.antt =====
-- The order of Go strings is a strict total order.
use mathlib.Core.Path.{◌≡◌, refl}
use mathlib.Core.Logic.{◌≢◌}
use mathlib.Core.Bool.{true, false}
use mathlib.Core.List.{[], ◌∷◌}
use native.Mathlib.Omega.{arith}
use rdma_demo.Base.Text.{Str, str_lt}

pub str_lt_irrefl : (s : Str) → str_lt s s ≡ false
unfolding str_lt
str_lt_irrefl [] = refl
str_lt_irrefl (a ∷ s) = ground (arith, str_lt_irrefl s)

pub str_lt_trans : (s t u : Str) → str_lt s t ≡ true → str_lt t u ≡ true → str_lt s u ≡ true
unfolding str_lt
str_lt_trans s t [] h k = absurd (ground arith)
str_lt_trans s [] (c ∷ u) h k = absurd (ground arith)
str_lt_trans [] (b ∷ t) (c ∷ u) h k = refl
str_lt_trans (a ∷ s) (b ∷ t) (c ∷ u) h k = ground (arith, str_lt_trans s t u)

pub str_lt_connected : (s t : Str) → str_lt s t ≡ false → s ≢ t → str_lt t s ≡ true
unfolding str_lt
str_lt_connected [] [] h k = absurd (k refl)
str_lt_connected (a ∷ s) [] h k = refl
str_lt_connected [] (b ∷ t) h k = absurd (ground arith)
str_lt_connected (a ∷ s) (b ∷ t) h k = ground (arith, str_lt_connected s t)
