-- ===== src/Base/Signed.antt =====
-- fmt's %d for a signed integer
use Prim.Native.Nat.{suc}
use mathlib.Core.List.{◌∷◌}
use rdma_demo.Base.Int.{ℤ, pos, negsuc}
use rdma_demo.Base.Text.{Str, decimal}

unfoldable pub signed_decimal : ℤ → Str
signed_decimal (pos n) = decimal n
signed_decimal (negsuc n) = 0x2d ∷ decimal (suc n)
