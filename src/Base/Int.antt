-- ===== src/Base/Int.antt =====
-- Signed integers over the native numbers, and Go's `int` and `int64`: 64 bits in two's complement,
-- whose sums and differences wrap around.
use Prim.Native.Nat.{ℕ, suc, ◌+◌, ◌-◌, ◌*◌, ◌/◌, ◌≤◌, ◌<◌, ◌%◌, ◌^◌}
use mathlib.Core.Path.{◌≡◌}
use mathlib.Core.Bool.{Bool, true}
use native.Mathlib.Omega.{arith}
use rdma_demo.Base.Tests.{ltb, leb, ◌==◌, if◌then◌else◌}

-- `negsuc n` is -(n + 1).
pub data ℤ : Type 0 where
  pos : ℕ → ℤ
  negsuc : ℕ → ℤ

abbrev pub pos_part : ℤ → ℕ
pos_part (pos n) = n
pos_part (negsuc n) = 0

abbrev pub neg_part : ℤ → ℕ
neg_part (pos n) = 0
neg_part (negsuc n) = suc n

-- a - b, as an integer.
abbrev pub sub_ℕ : ℕ → ℕ → ℤ
sub_ℕ a b = if leb b a then pos (a - b) else negsuc (b - a - 1)

infixl 70 ◌*ℤ◌
infixl 65 ◌+ℤ◌ ◌-ℤ◌
infix 50 ◌≤ℤ◌ ◌<ℤ◌
unfoldable pub ◌+ℤ◌ : ℤ → ℤ → ℤ
a +ℤ b = sub_ℕ (pos_part a + pos_part b) (neg_part a + neg_part b)

unfoldable pub ◌-ℤ◌ : ℤ → ℤ → ℤ
a -ℤ b = sub_ℕ (pos_part a + neg_part b) (neg_part a + pos_part b)

abbrev pub ◌≤ℤ◌ : ℤ → ℤ → Type 0
a ≤ℤ b = pos_part a + neg_part b ≤ pos_part b + neg_part a

abbrev pub ◌<ℤ◌ : ℤ → ℤ → Type 0
a <ℤ b = pos_part a + neg_part b < pos_part b + neg_part a

abbrev pub ltb_ℤ : ℤ → ℤ → Bool
ltb_ℤ a b = ltb (pos_part a + neg_part b) (pos_part b + neg_part a)

abbrev pub leb_ℤ : ℤ → ℤ → Bool
leb_ℤ a b = leb (pos_part a + neg_part b) (pos_part b + neg_part a)

abbrev pub eqb_ℤ : ℤ → ℤ → Bool
eqb_ℤ a b = pos_part a + neg_part b == pos_part b + neg_part a

abbrev pub half_range : ℕ
half_range = 2 ^ 63

abbrev pub full_range : ℕ
full_range = 2 ^ 64

-- The 64-bit value that stands for an integer.
unfoldable pub wrap64 : ℤ → ℤ
wrap64 (pos n) =
    let r = n % full_range in if ltb r half_range then pos r else negsuc (full_range - 1 - r)
wrap64 (negsuc n) =
    let r = n % full_range in if ltb r half_range then negsuc r else pos (full_range - 1 - r)

unfoldable pub add64 : ℤ → ℤ → ℤ
unfolding wrap64 ◌+ℤ◌
add64 a b = wrap64 (a +ℤ b)

unfoldable pub sub64 : ℤ → ℤ → ℤ
unfolding wrap64 ◌-ℤ◌
sub64 a b = wrap64 (a -ℤ b)

-- A value that a signed 64-bit word holds.
abbrev pub Fits64 : ℤ → Type 0
Fits64 a = (pos_part a < half_range) × (neg_part a ≤ half_range)

pub add64-pos : (a b : ℕ) → a + b < half_range → add64 (pos a) (pos b) ≡ pos (a + b)
unfolding add64
add64-pos a b h = ground arith

pub sub64-pos : (a b : ℕ) → b ≤ a → a < half_range → sub64 (pos a) (pos b) ≡ pos (a - b)
unfolding sub64
sub64-pos a b h k = ground arith

-- Sums and differences of words are words.
pub add64-Fits64 : (a b : ℤ) → Fits64 (add64 a b)
unfolding add64
add64-Fits64 a b = ground arith

pub sub64-Fits64 : (a b : ℤ) → Fits64 (sub64 a b)
unfolding sub64
sub64-Fits64 a b = ground arith

unfoldable pub ◌*ℤ◌ : ℤ → ℤ → ℤ
a *ℤ b =
    sub_ℕ (pos_part a * pos_part b + neg_part a * neg_part b)
      (pos_part a * neg_part b + neg_part a * pos_part b)

unfoldable pub mul64 : ℤ → ℤ → ℤ
unfolding wrap64 ◌*ℤ◌
mul64 a b = wrap64 (a *ℤ b)

-- The quotient of two integers that are not negative; the source divides no others.
unfoldable pub quot_ℤ : ℤ → ℤ → ℤ
quot_ℤ a b = pos (pos_part a / pos_part b)

pub eqb_ℤ-sound : (a b : ℤ) → eqb_ℤ a b ≡ true → a ≡ b
eqb_ℤ-sound (pos a) (pos b) h = ground arith
eqb_ℤ-sound (pos a) (negsuc b) h = absurd (ground arith)
eqb_ℤ-sound (negsuc a) (pos b) h = absurd (ground arith)
eqb_ℤ-sound (negsuc a) (negsuc b) h = ground arith
