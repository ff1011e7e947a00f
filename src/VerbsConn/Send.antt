-- ===== src/VerbsConn/Send.antt =====
-- pkg/rdma/verbs_linux_cgo.go: SendMessage and SendMessageAt. `calls` gives the return codes of the C
-- functions that send; what was called is returned with the result. `started` is what ctx.Err returns at
-- first, and the context is what it says when the timeout is computed.
use rdma_demo.Base.{
  ℕ, ◌%◌, ◌^◌, Bool, ◌||◌, ◌≡◌, Option, none, some, List, [], ◌∷◌, length, ◌==◌, if◌then◌else◌,
  arith, ◌⊎◌, ◌↔◌, ◌≤◌, All, Option-cases, inl, inr,
}
use rdma_demo.Base.Int.{ℤ, pos_part, pos, ltb_ℤ, ◌<ℤ◌}
use rdma_demo.Base.Text.{Str}
use rdma_demo.VerbsConn.Device.{eagain, emsgsize, enotsup}
use rdma_demo.VerbsConn.Recv.{CtxError, deadline_exceeded}
use rdma_demo.VerbsConn.Timeouts.{Context, Timeout, millis, ended, context_timeout_millis}

pub record Sender : Type 0 where
  pub is_open : Bool
  pub frame_payload_size : ℤ
  pub inline_threshold : ℤ

-- C.uint32_t of an int
abbrev pub uint32 : ℕ → ℕ
uint32 n = n % 2 ^ 32

-- A call of go_rdma_send_message, go_rdma_send_message_rw or go_rdma_send_message_rw_at: the payload,
-- the length that is passed with it, and the offset.
pub data Call : Type 0 where
  send rw_send : Str → ℕ → Call
  rw_send_at : Str → ℕ → ℕ → Call

abbrev pub send_call : Str → Call
send_call payload = send payload (uint32 (length payload))

pub data SendError : Type 0 where
  ctx_error : CtxError → SendError
  net_closed : SendError
  invalid_offset : ℤ → SendError
  code : Call → ℕ → SendError

-- The calls in order, and the error if there is one.
abbrev pub Sent : Type 0
Sent = List Call × Option SendError

abbrev pub rw_cutover : Sender → ℤ
rw_cutover c =
    if ltb_ℤ c.inline_threshold c.frame_payload_size
    then c.frame_payload_size
    else c.inline_threshold

-- What is sent unless the context has ended.
abbrev pub in_time : Timeout → Sent → Sent
in_time (ended e) r = ([], some (ctx_error e))
in_time (millis ms) r = r

module _ (calls : Call → ℕ) (after : Option CtxError) where
  -- What a return code says: the last call, and what ctx.Err returns then.
  unfoldable pub send_result : Call → Option SendError
  send_result last =
      let rc = calls last in
      if rc == 0
      then none
      else if rc == eagain
      then elim after [ some e ↦ some (ctx_error e) | none ↦ some (ctx_error deadline_exceeded) ]
      else some (code last rc)

  -- SendMessage once the connection is ready and the timeout known.
  unfoldable pub send_by : Sender → Str → Sent
  unfolding send_result
  send_by c payload =
      let by_send = send_call payload in
      let by_rw = rw_send payload (uint32 (length payload)) in
      let rc = calls by_rw in
      if ltb_ℤ (rw_cutover c) (pos (length payload))
      then if rc == emsgsize || rc == enotsup
        then (by_rw ∷ by_send ∷ [], send_result by_send)
        else (by_rw ∷ [], send_result by_rw)
      else (by_send ∷ [], send_result by_send)

  unfoldable pub send_message : Option CtxError → Context → Sender → Str → Sent
  unfolding send_by
  send_message started ctx c payload = elim started [
    | some e ↦ ([], some (ctx_error e))
    | none ↦
        if c.is_open
        then in_time (context_timeout_millis ctx) (send_by c payload)
        else ([], some net_closed)
  ]

  unfoldable pub send_message_at : Option CtxError → Context → Sender → Str → ℤ → Sent
  unfolding send_result
  send_message_at started ctx c payload shared_offset =
      let at_offset =
        rw_send_at payload (uint32 (length payload)) (uint32 (pos_part shared_offset)) in
      elim started [
        | some e ↦ ([], some (ctx_error e))
        | none ↦
            if ltb_ℤ shared_offset (pos 0)
            then ([], some (invalid_offset shared_offset))
            else if c.is_open
            then in_time (context_timeout_millis ctx) (at_offset ∷ [], send_result at_offset)
            else ([], some net_closed)
      ]

  -- The calls whose code is 0.
  abbrev pub successes : List Call → List Call
  successes [] = []
  successes (x ∷ l) = if calls x == 0 then x ∷ successes l else successes l

  -- send_result is no error exactly if the call's code is 0.
  send_result_lem : (x : Call) → (send_result x ≡ none) ↔ (calls x ≡ 0)
  unfolding send_result
  send_result_lem x = elim (Option-cases after) [ inl n ↦ ground arith | inr (e, h) ↦ ground arith ]

  -- What a list of calls and a result must be.
  abbrev pub IsSentOnce : Sender → Str → Sent → Type 0
  IsSentOnce c payload r =
      ((r.1 ≡ none) ↔ (length (successes r.0) ≡ 1))
      × (length (successes r.0) ≤ 1)
      × ((rw_cutover c <ℤ pos (length payload)) ⊎ All (λ x. x ≡ send_call payload) r.0)

  send_by_lem : (c : Sender) (payload : Str) → IsSentOnce c payload (send_by c payload)
  unfolding send_by
  send_by_lem c payload = ground (
    arith,
    send_result_lem (send_call payload),
    send_result_lem (rw_send payload (uint32 (length payload))),
  )

  in_time_lem :
      (c : Sender) (payload : Str) (t : Timeout) (r : Sent)
      → IsSentOnce c payload r
      → IsSentOnce c payload (in_time t r)
  in_time_lem c payload (ended e) r i = ground arith
  in_time_lem c payload (millis ms) r i = i

  -- SendMessage returns no error exactly if one of its calls succeeded, and then it was the only one: a
  -- message is never sent twice. One not above the cutover, as a control message, goes by SEND and
  -- never into the memory of the peer.
  pub send_message_lem :
      (started : Option CtxError) (ctx : Context) (c : Sender) (payload : Str)
      → IsSentOnce c payload (send_message started ctx c payload)
  unfolding send_message
  send_message_lem started ctx c payload = elim (Option-cases started) [
    | inr (e, h) ↦ rw h ground arith
    | inl h ↦ rw h ground (
      arith,
      in_time_lem c payload (context_timeout_millis ctx) (send_by c payload)
          (send_by_lem c payload),
    )
  ]
