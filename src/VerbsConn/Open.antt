-- ===== src/VerbsConn/Open.antt =====
-- pkg/rdma/verbs_linux_cgo.go: the attempts of Open, and openVerbsConnOnce. An attempt is what its
-- context says at each place that asks, and what go_rdma_open returns. A round of the loop is what the
-- context of Open and the clock say, and what happens in an attempt with a given timeout.
use rdma_demo.Base.{
  ℕ, suc, ◌+◌, ◌*◌, ◌≤◌, ◌<◌, Bool, true, false, not, ◌&&◌, Option, none, some, List, [], ◌∷◌,
  length, leb, ◌==◌, if◌then◌else◌, arith, if-elim, Option-cases, inl, inr,
}
use rdma_demo.Base.Int.{ℤ, pos, ltb_ℤ, leb_ℤ}
use rdma_demo.VerbsConn.Device.{eagain}
use rdma_demo.VerbsConn.Recv.{CtxError, deadline_exceeded}
use rdma_demo.VerbsConn.Timeouts.{
  millisecond, verbs_open_timeout_mills, Context, millis, ended, open_timeout_millis,
}

abbrev verbs_open_attempt_timeout : ℕ
verbs_open_attempt_timeout = verbs_open_timeout_mills * millisecond

abbrev pub verbs_open_attempt_limit : ℕ
verbs_open_attempt_limit = 8

pub data OpenError : Type 0 where
  ctx_error : CtxError → OpenError
  c_error : ℕ → OpenError
  nil_connection open_failed : OpenError
  canceled_after : ℕ → CtxError → OpenError → OpenError
  failed_after deadline_after : ℕ → OpenError → OpenError

-- What go_rdma_open returns.
pub record OpenResult : Type 0 where
  pub rc : ℕ
  pub has_conn : Bool

pub record Attempt : Type 0 where
  pub context : Context
  pub done_first : Option CtxError
  pub result : OpenResult
  pub after_result : Option CtxError

pub data Opened : Type 0 where
  opened : Opened
  not_opened : OpenError → Opened

-- discardOpenResult: whether it closes a connection
abbrev pub discard_open_result : OpenResult → Bool
discard_open_result r = r.rc == 0 && r.has_conn

-- openVerbsConnOnce once go_rdma_open has returned
unfoldable pub open_outcome : OpenResult → Option CtxError → Opened
open_outcome r after =
    if r.rc == 0
    then if r.has_conn then opened else not_opened nil_connection
    else if r.rc == eagain
    then elim after [
      | some e ↦ not_opened (ctx_error e)
      | none ↦ not_opened (ctx_error deadline_exceeded)
    ]
    else not_opened (c_error r.rc)

-- openVerbsConnOnce, and whether it closes a connection that came too late
unfoldable pub open_verbs_conn_once : Attempt → Opened × Bool
unfolding open_outcome
open_verbs_conn_once a = elim (open_timeout_millis a.context) [
  | ended e ↦ (not_opened (ctx_error e), false)
  | millis ms ↦ elim a.done_first [
    | some e ↦ (not_opened (ctx_error e), discard_open_result a.result)
    | none ↦ (open_outcome a.result a.after_result, false)
  ]
]

unfoldable pub is_retriable_open_err : OpenError → Bool
is_retriable_open_err (ctx_error e) = true
is_retriable_open_err (canceled_after n e last) = true
is_retriable_open_err (failed_after n e) = is_retriable_open_err e
is_retriable_open_err (deadline_after n e) = is_retriable_open_err e
is_retriable_open_err (c_error rc) = false
is_retriable_open_err nil_connection = false
is_retriable_open_err open_failed = false

pub record Round : Type 0 where
  pub at_loop : Option CtxError
  pub remain : ℤ
  pub attempt : ℤ → Attempt
  pub remain_after : ℤ
  pub woken : Option CtxError

-- How Open ends: a connection or an error, after some attempts.
abbrev pub Ended : Type 0
Ended = ℕ × Option OpenError

abbrev pub or_last : OpenError → (OpenError → OpenError) → Option OpenError → OpenError
or_last e wrapped none = e
or_last e wrapped (some last) = wrapped last

abbrev pub attempt_timeout : Bool → ℤ → ℤ
attempt_timeout has_deadline remain =
    let default = pos verbs_open_attempt_timeout in
    if has_deadline && ltb_ℤ remain default then remain else default

-- The end of a round, after an attempt; `again` is the rest of the loop.
unfoldable pub after_attempt : Bool → ℕ → Round → Opened → (OpenError → Option Ended) → Option Ended
after_attempt has_deadline n r opened again = some (n, none)
after_attempt has_deadline n r (not_opened e) again =
    let next = again e in
    let slept : Option Ended = elim r.woken [
      | some x ↦ some (n, some (ctx_error x))
      | none ↦ next
    ] in
    if not (is_retriable_open_err e)
    then some (n, some e)
    else if not has_deadline
    then next
    else if leb_ℤ r.remain_after (pos 0)
    then some (n, some (deadline_after n e))
    else slept

-- The loop of Open; `none` means that it has not returned after these rounds.
unfoldable pub open_loop : Bool → ℕ → Option OpenError → List Round → Option Ended
unfolding after_attempt open_verbs_conn_once
open_loop has_deadline n last [] = none
open_loop has_deadline n last (r ∷ rs) =
    let o = open_verbs_conn_once (r.attempt (attempt_timeout has_deadline r.remain)) in
    let round =
      after_attempt has_deadline (suc n) r o.0 (λ e. open_loop has_deadline (suc n) (some e) rs) in
    elim r.at_loop [
      | some e ↦ some (n, some (or_last (ctx_error e) (canceled_after n e) last))
      | none ↦
          if not has_deadline && leb verbs_open_attempt_limit n
          then some (n, some (or_last open_failed (failed_after n) last))
          else if has_deadline && leb_ℤ r.remain (pos 0)
          then some (n, some (or_last (ctx_error deadline_exceeded) (deadline_after n) last))
          else round
    ]

-- It has returned, after so many attempts at most.
abbrev pub EndsWithin : ℕ → Option Ended → Type 0
EndsWithin k none = ⊥
EndsWithin k (some e) = e.0 ≤ k

after_attempt-EndsWithin :
    (n : ℕ) (r : Round) (o : Opened) (again : OpenError → Option Ended)
    → n ≤ verbs_open_attempt_limit
    → ((e : OpenError) → EndsWithin verbs_open_attempt_limit (again e))
    → EndsWithin verbs_open_attempt_limit (after_attempt false n r o again)
unfolding after_attempt
after_attempt-EndsWithin n r opened again h ends = h
after_attempt-EndsWithin n r (not_opened e) again h ends = ground (arith, ends e)

-- Without a deadline, and with at most eight attempts made, Open returns at the latest in the round after
-- its eighth attempt, whatever the context and the attempts do, and it makes at most eight.
pub open_loop_ends :
    (rs : List Round) (n : ℕ) (last : Option OpenError)
    → n ≤ verbs_open_attempt_limit
    → verbs_open_attempt_limit < n + length rs
    → EndsWithin verbs_open_attempt_limit (open_loop false n last rs)
unfolding open_loop
open_loop_ends [] n last h k = absurd (omega (arith, h, k))
open_loop_ends (r ∷ rs) n last h k = elim (Option-cases r.at_loop) [
  | inr (e, h') ↦ rw h' h
  | inl none' ↦ rw none' (
      if-elim (EndsWithin verbs_open_attempt_limit) (leb verbs_open_attempt_limit n) (λ _. h)
        (λ more.
          after_attempt-EndsWithin (suc n) r
            (open_verbs_conn_once (r.attempt (attempt_timeout false r.remain))).0
            (λ e. open_loop false (suc n) (some e) rs) (ground arith)
            (λ e. open_loop_ends rs (suc n) (some e) (ground arith) (omega (arith, k)))))
]
