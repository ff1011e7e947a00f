-- ===== src/RdmaClient/Config.antt =====
-- pkg/rdma/client/client.go: timeouts, buffer references and the number of credits.
-- A duration is a number of nanoseconds.
use native.Mathlib.Nat.{mul-le-mul, div-mul-le_self}
use rdma_demo.Base.{
  ℕ, ◌+◌, ◌*◌, ◌/◌, ◌≤◌, ◌<◌, ◌≡◌, ◌↔◌, ◌⊎◌, inl, inr, ◌||◌, Option, none, some, arith,
  if◌then◌else◌,
}
use rdma_demo.Base.Int.{
  ℤ, pos, negsuc, pos_part, half_range, leb_ℤ, ltb_ℤ, ◌≤ℤ◌, ◌<ℤ◌, add64, add64-pos, mul64, quot_ℤ,
  Fits64,
}

abbrev pub default_max_credits : ℤ
default_max_credits = pos 64

abbrev pub default_connect_timeout : ℤ
default_connect_timeout = pos 10000000000

abbrev pub default_control_timeout : ℤ
default_control_timeout = pos 30000000000

abbrev pub default_data_timeout : ℤ
default_data_timeout = pos 120000000000

pub record BufferRef : Type 0 where
  pub offset : ℤ
  pub size : ℤ
  pub token : ℕ

unfoldable pub end : BufferRef → ℤ
end r = add64 r.offset r.size

-- The durations of a Config.
pub record Config : Type 0 where
  pub request_timeout : ℤ
  pub connect_timeout : ℤ
  pub control_timeout : ℤ
  pub data_timeout : ℤ

pub record TimeoutConfig : Type 0 where
  pub connect : ℤ
  pub control : ℤ
  pub data_ : ℤ

-- `if value <= 0 { value = otherwise }`
abbrev pub or_else : ℤ → ℤ → ℤ
or_else value otherwise = if leb_ℤ value (pos 0) then otherwise else value

unfoldable pub resolve_timeouts : Config → TimeoutConfig
resolve_timeouts cfg =
    let fallback = or_else cfg.request_timeout (pos 0) in
    record {
      connect = or_else (or_else cfg.connect_timeout fallback) default_connect_timeout;
      control = or_else (or_else cfg.control_timeout fallback) default_control_timeout;
      data_ = or_else (or_else cfg.data_timeout fallback) default_data_timeout;
    }

pub data RefError : Type 0 where
  invalid_ref out_of_range : RefError

-- With the size of the shared memory; `none` is no error.
unfoldable pub validate_ref : ℕ → BufferRef → Option RefError
unfolding end
validate_ref region ref =
    if ltb_ℤ ref.offset (pos 0) || ltb_ℤ ref.size (pos 0)
    then some invalid_ref
    else if ltb_ℤ (end ref) ref.offset || ltb_ℤ (pos region) (end ref)
    then some out_of_range
    else none

unfoldable pub frame_payload_hint : ℤ → ℤ
frame_payload_hint frame_payload =
    if ltb_ℤ (pos 0) frame_payload then frame_payload else pos (64 * 1024)

-- The size of a slot, from the size of the shared memory and a frame size that is positive.
unfoldable pub cap_bytes : ℤ → ℤ → ℤ
cap_bytes shared_len frame_cap =
    let eightfold = mul64 frame_cap (pos 8) in
    let low = if ltb_ℤ eightfold (pos (256 * 1024)) then pos (256 * 1024) else eightfold in
    let high = if ltb_ℤ (pos (1024 * 1024)) low then pos (1024 * 1024) else low in
    let shared = if ltb_ℤ shared_len high then shared_len else high in
    if ltb_ℤ shared frame_cap then frame_cap else shared

-- the last two tests on slots: at least one, at most `most`
abbrev pub clamp : ℤ → ℤ → ℤ
clamp most slots =
    let some_slots = if ltb_ℤ slots (pos 1) then pos 1 else slots in
    if ltb_ℤ most some_slots then most else some_slots

unfoldable pub compute_safe_credits : ℤ → ℤ → ℤ → ℤ
unfolding cap_bytes
compute_safe_credits shared_len frame_cap max_credits =
    let frame = or_else frame_cap (pos (64 * 1024)) in
    let most = or_else max_credits default_max_credits in
    clamp most (quot_ℤ shared_len (cap_bytes shared_len frame))

-- A sum of two words that are not negative and that passes the largest one comes out negative.
add64_over :
    (a b : ℕ)
    → a < half_range
    → b < half_range
    → half_range ≤ a + b
    → pos_part (add64 (pos a) (pos b)) ≡ 0
unfolding add64
add64_over a b h k l = ground arith

-- A reference is accepted exactly if neither number is negative and its bytes lie in the shared
-- memory; a sum that wraps around is not accepted.
pub validate_ref-accepts :
    (region : ℕ) (ref : BufferRef)
    → Fits64 ref.offset
    → Fits64 ref.size
    → region < half_range
    → (validate_ref region ref ≡ none) ↔ (
        (pos 0 ≤ℤ ref.offset)
        × (pos 0 ≤ℤ ref.size)
        × (pos_part ref.offset + pos_part ref.size ≤ region))
unfolding validate_ref
validate_ref-accepts region ref fo fs small = cases ref.offset ref.size fo fs
  where
    cases :
        (a b : ℤ)
        → Fits64 a
        → Fits64 b
        → (validate_ref region (record { offset = a; size = b; token = ref.token }) ≡ none)
          ↔ ((pos 0 ≤ℤ a) × (pos 0 ≤ℤ b) × (pos_part a + pos_part b ≤ region))
    cases (negsuc a) b fa fb = (ground arith, ground arith)
    cases (pos a) (negsuc b) fa fb = (ground arith, ground arith)
    cases (pos a) (pos b) fa fb =
        (ground (arith, add64-pos a b, add64_over a b), ground (arith, add64-pos a b))

-- Every timeout that results is positive.
pub resolve_timeouts-positive :
    (cfg : Config)
    → (pos 0 <ℤ (resolve_timeouts cfg).connect)
      × (pos 0 <ℤ (resolve_timeouts cfg).control)
      × (pos 0 <ℤ (resolve_timeouts cfg).data_)
unfolding resolve_timeouts
resolve_timeouts-positive cfg = (ground arith, ground arith, ground arith)

frame_le_cap :
    (shared frame : ℤ)
    → (pos 0 <ℤ frame)
    → (pos 0 <ℤ cap_bytes shared frame) × (frame ≤ℤ cap_bytes shared frame)
unfolding cap_bytes
frame_le_cap shared frame h = ground arith

clamp_lem :
    (most : ℤ) (slots : ℕ)
    → pos 0 <ℤ most
    → (pos 1 ≤ℤ clamp most (pos slots))
      × (clamp most (pos slots) ≤ℤ most)
      × ((clamp most (pos slots) ≡ pos 1) ⊎ (pos_part (clamp most (pos slots)) ≤ slots))
clamp_lem (negsuc n) slots h = absurd (omega arith)
clamp_lem (pos n) slots h = (ground arith, ground arith, ground arith)

or_else-positive : (a b : ℤ) → pos 0 <ℤ b → pos 0 <ℤ or_else a b
or_else-positive a b h = ground arith

part_le : (a b : ℤ) → pos 0 <ℤ b → a ≤ℤ b → pos_part a ≤ pos_part b
part_le (pos a) (pos b) h k = omega (arith, h, k)
part_le (pos a) (negsuc b) h k = absurd (omega (arith, h))
part_le (negsuc a) b h k = omega arith

-- The number of credits is at least one and at most the limit, and the frames that so many credits
-- admit fit into the shared memory together, unless it is the one credit that is always given.
pub compute_safe_credits-bounds :
    (shared : ℕ) (frame_cap max_credits : ℤ)
    → (pos 1 ≤ℤ compute_safe_credits (pos shared) frame_cap max_credits)
      × (compute_safe_credits (pos shared) frame_cap max_credits
          ≤ℤ or_else max_credits default_max_credits)
      × ((compute_safe_credits (pos shared) frame_cap max_credits ≡ pos 1)
          ⊎ (pos_part (compute_safe_credits (pos shared) frame_cap max_credits)
                * pos_part (or_else frame_cap (pos (64 * 1024)))
              ≤ shared))
unfolding compute_safe_credits quot_ℤ
compute_safe_credits-bounds shared frame_cap max_credits =
    let frame = or_else frame_cap (pos (64 * 1024)) in
    let most = or_else max_credits default_max_credits in
    let cap = cap_bytes (pos shared) frame in
    let slots = shared / pos_part cap in
    let (positive, larger) =
      frame_le_cap (pos shared) frame
        (or_else-positive frame_cap (pos (64 * 1024)) (omega arith)) in
    let (least, few, fits) =
      clamp_lem most slots (or_else-positive max_credits default_max_credits (omega arith)) in
    let le_cap : pos_part frame ≤ pos_part cap = part_le frame cap positive larger in
    (
      least,
      few,
      elim fits [
        | inl one_credit ↦ inl one_credit
        | inr le ↦ inr (omega (arith, mul-le-mul le le_cap, div-mul-le_self shared (pos_part cap)))
      ],
    )
