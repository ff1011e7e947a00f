-- ===== src/VerbsConn/Timeouts.antt =====
-- pkg/rdma/verbs_linux_cgo.go: timeouts in milliseconds. A duration is in nanoseconds. A context is the
-- error that ctx.Err returns, and the time until its deadline if it has one.
use rdma_demo.Base.{
  ℕ, ◌+◌, ◌*◌, ◌/◌, ◌%◌, ◌≤◌, ◌<◌, Option, none, some, ltb, ◌==◌, if◌then◌else◌, arith, ◌⊎◌,
}
use rdma_demo.Base.Int.{ℤ, pos, negsuc, leb_ℤ, pos_part}
use rdma_demo.VerbsConn.Recv.{CtxError, deadline_exceeded}

abbrev pub millisecond : ℕ
millisecond = 1000000

abbrev pub verbs_open_timeout_mills : ℕ
verbs_open_timeout_mills = 3000

-- rdmaDurationToTimeoutMillis
unfoldable pub duration_to_timeout_millis : ℤ → ℕ
duration_to_timeout_millis d =
    let n = pos_part d in
    let ms = n / millisecond + (if n % millisecond == 0 then 0 else 1) in
    if leb_ℤ d (pos 0)
    then 0
    else if ltb ms 1
    then 1
    else if ltb 2147483647 ms
    then 2147483647
    else ms

pub data Timeout : Type 0 where
  millis : ℤ → Timeout
  ended : CtxError → Timeout

pub record Context : Type 0 where
  pub error : Option CtxError
  pub remain : Option ℤ

unfoldable pub context_timeout_millis_with_default : Context → ℤ → Timeout
unfolding duration_to_timeout_millis
context_timeout_millis_with_default ctx default = elim ctx.error [
  | some e ↦ ended e
  | none ↦ elim ctx.remain [
    | none ↦
        if leb_ℤ default (pos 0)
        then millis (negsuc 0)
        else millis (pos (duration_to_timeout_millis default))
    | some remain ↦
        if leb_ℤ remain (pos 0)
        then ended deadline_exceeded
        else millis (pos (duration_to_timeout_millis remain))
  ]
]

unfoldable pub context_timeout_millis : Context → Timeout
context_timeout_millis ctx = context_timeout_millis_with_default ctx (pos 0)

unfoldable pub open_timeout_millis : Context → Timeout
open_timeout_millis ctx = elim (context_timeout_millis ctx) [
  | ended e ↦ ended e
  | millis (pos n) ↦ millis (pos n)
  | millis (negsuc n) ↦ millis (pos verbs_open_timeout_mills)
]

-- The timeout of a positive duration is positive and fits into an int32. It is not shorter than the
-- duration, unless that is above 2³¹ - 1 milliseconds, and less than a millisecond longer.
pub duration_to_timeout_millis_bounds :
    (n : ℕ)
    → 0 < n
    → (0 < duration_to_timeout_millis (pos n))
      × (duration_to_timeout_millis (pos n) < 2147483648)
      × ((n ≤ duration_to_timeout_millis (pos n) * millisecond) ⊎ (2147483647 * millisecond < n))
      × (duration_to_timeout_millis (pos n) * millisecond < n + millisecond)
unfolding duration_to_timeout_millis
duration_to_timeout_millis_bounds n h = ground arith
