-- ===== src/InmemZcopy/Conn.antt =====
-- internal/inmems3/zcopy/service.go: zcopyConn. Its state has the fields of the RDMA server's, and the
-- transport is an argument in the same way: `delivers n` says whether the n-th send succeeds.
use rdma_demo.Base.{
  ℕ, suc, Bool, true, false, Option, none, some, List, [], ◌∷◌, ◌++◌, length, not, ◌&&◌,
  if◌then◌else◌,
}
use rdma_demo.Base.Int.{ℤ, pos, leb_ℤ, ltb_ℤ, add64, sub64, eqb_ℤ}
use rdma_demo.Base.Text.{Str}
use rdma_demo.Ingest.{Receipt, result_for_bytes}
use rdma_demo.ZcopyProto.{
  Message, blank, op_resp_ok, op_resp_err, op_get_meta, Json, decode, ok, err,
}
use rdma_demo.ZcopyServer.Conn as RdmaConn
use rdma_demo.ZcopyServer.Conn.{
  Frame, control, payload_at, Borrowed, ConnError, net_closed, send_failed, recv_failed,
  invalid_offset, invalid_size, offset_mismatch, size_mismatch, Outcome, done, failed, Wait, blocks,
  granted, refused,
}

abbrev pub ZcopyConn : Type 0
ZcopyConn = RdmaConn.ZcopyConn

unfoldable pub new_zcopy_conn : List Borrowed → ZcopyConn
new_zcopy_conn inbox = record {
  credits = pos 0;
  closed = false;
  attempts = 0;
  sent = [];
  inbox = inbox;
  released = 0;
}

unfoldable pub close : ZcopyConn → ZcopyConn
close zc = record zc { closed = true }

unfoldable pub add_credits : ℤ → ZcopyConn → ZcopyConn
add_credits n zc = if leb_ℤ n (pos 0) then zc else record zc { credits = add64 zc.credits n }

unfoldable pub set_credits : ℤ → ZcopyConn → ZcopyConn
set_credits n zc = let n' = if ltb_ℤ n (pos 1) then pos 1 else n in record zc { credits = n' }

-- The loop of waitCredit, from one look at the state to the next: a closed connection gives no credit.
unfoldable pub wait_credit : ZcopyConn → Wait
wait_credit zc =
    if leb_ℤ zc.credits (pos 0) && not zc.closed
    then blocks
    else if zc.closed
    then refused net_closed
    else granted (record zc { credits = sub64 zc.credits (pos 1) })

module _ (delivers : ℕ → Bool) where
  -- conn.SendMessage and offsetOut.SendMessageAt
  unfoldable pub transmit : Frame → ZcopyConn → ZcopyConn × Outcome
  transmit f zc =
      let zc' : ZcopyConn = record zc { attempts = suc zc.attempts } in
      if delivers zc.attempts
      then (record zc' { sent = zc.sent ++ f ∷ [] }, done)
      else (zc', failed send_failed)

  -- The operation of every message that the server sends is a constant, so Encode does not fail.
  unfoldable pub send_control : Message → ZcopyConn → ZcopyConn × Outcome
  unfolding transmit
  send_control msg zc = transmit (control msg) zc

  -- sendMu makes the send one step, which it is already.
  unfoldable pub send_control_locked : Message → ZcopyConn → ZcopyConn × Outcome
  unfolding send_control
  send_control_locked msg zc = send_control msg zc

  unfoldable pub send_resp_ok : ℕ → ZcopyConn → ZcopyConn × Outcome
  unfolding send_control_locked
  send_resp_ok req_id zc = send_control_locked (record (blank op_resp_ok) { req_id = req_id }) zc

  unfoldable pub send_resp_err : ℕ → Str → ZcopyConn → ZcopyConn × Outcome
  unfolding send_control_locked
  send_resp_err req_id text zc =
      send_control_locked (record (blank op_resp_err) { req_id = req_id; error = text }) zc

  -- sendGetPayload once the credit is taken: under sendMu the announcement and the payload
  unfoldable pub send_announced : ℕ → Str → ℤ → ZcopyConn → ZcopyConn × Outcome
  send_announced req_id payload data_offset zc =
      let announcement : Message = record (blank op_get_meta) {
        req_id = req_id;
        size = pos (length payload);
        data_offset = some data_offset;
      } in
      if ltb_ℤ data_offset (pos 0)
      then (zc, failed (invalid_offset data_offset))
      else elim (send_control announcement zc).1 [
        | failed e ↦ ((send_control announcement zc).0, failed e)
        | done ↦ transmit (payload_at payload data_offset) (send_control announcement zc).0
      ]

-- `none` is a receive or a decoding that fails.
unfoldable pub recv_control : Json → ZcopyConn → ZcopyConn × Option Message
recv_control json zc = elim zc.inbox [
  | [] ↦ (zc, none)
  | m ∷ ms ↦ (
    record zc { inbox = ms; released = suc zc.released },
    elim (decode json m.payload) [ err e ↦ none | ok msg ↦ some msg ],
  )
]

-- What recvPayloadReceiptAt returns.
pub data Received : Type 0 where
  receipt : Receipt → Received
  not_received : ConnError → Received

-- The checks on what was received; the deferred Release happens on each way out.
unfoldable pub payload_receipt : (Str → Str) → ℤ → ℤ → Borrowed → Received
payload_receipt md5 size shared_offset m =
    if not (eqb_ℤ m.shared_offset shared_offset)
    then not_received (offset_mismatch m.shared_offset shared_offset)
    else if not (eqb_ℤ (pos (length m.payload)) size)
    then not_received (size_mismatch (pos (length m.payload)) size)
    else receipt (result_for_bytes md5 m.payload)

unfoldable pub borrow_payload :
    (Str → Str) → ℤ → ℤ → List Borrowed → ZcopyConn → ZcopyConn × Received
unfolding payload_receipt
borrow_payload md5 size shared_offset [] zc = (zc, not_received recv_failed)
borrow_payload md5 size shared_offset (m ∷ ms) zc =
    (record zc { inbox = ms; released = suc zc.released }, payload_receipt md5 size shared_offset m)

unfoldable pub recv_payload_receipt_at : (Str → Str) → ℤ → ℤ → ZcopyConn → ZcopyConn × Received
unfolding borrow_payload
recv_payload_receipt_at md5 size shared_offset zc =
    if ltb_ℤ size (pos 0)
    then (zc, not_received (invalid_size size))
    else if ltb_ℤ shared_offset (pos 0)
    then (zc, not_received (invalid_offset shared_offset))
    else if eqb_ℤ size (pos 0)
    then (zc, receipt (result_for_bytes md5 []))
    else borrow_payload md5 size shared_offset zc.inbox zc
