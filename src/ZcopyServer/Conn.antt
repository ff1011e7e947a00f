-- ===== src/ZcopyServer/Conn.antt =====
-- internal/s3rdmaserver/zcopy/service.go: zcopyConn, the connection with its credits.
-- The transport is an argument: `delivers n` says whether the n-th send succeeds, and `inbox` holds
-- what has arrived, oldest first: control messages and payloads come over one ordered channel, which
-- RecvMessage and RecvBorrowedMessage both read. `sent` is what was sent, oldest first. A nil listener or store, the log and the
-- lengths of the timeouts are not in the state; a send or receive that times out is one that fails.
use rdma_demo.Base.{
  ℕ, suc, Bool, true, false, Option, none, some, List, [], ◌∷◌, ◌++◌, length, not, if◌then◌else◌,
}
use rdma_demo.Base.Int.{ℤ, pos, leb_ℤ, ltb_ℤ, add64, sub64, eqb_ℤ}
use rdma_demo.Base.Text.{Str}
pub use rdma_demo.Transport.{Frame, control, payload_at, Borrowed}
use rdma_demo.ZcopyProto.{
  Message, blank, op_resp_ok, op_resp_err, op_get_meta, Json, decode, ok, err,
}

pub record ZcopyConn : Type 0 where
  pub credits : ℤ
  pub closed : Bool
  pub attempts : ℕ
  pub sent : List Frame
  pub inbox : List Borrowed
  pub released : ℕ

pub data ConnError : Type 0 where
  net_closed send_failed recv_failed : ConnError
  invalid_offset invalid_size : ℤ → ConnError
  offset_mismatch size_mismatch : ℤ → ℤ → ConnError

pub data Outcome : Type 0 where
  done : Outcome
  failed : ConnError → Outcome

unfoldable pub new_conn : List Borrowed → ZcopyConn
new_conn inbox = record {
  credits = pos 0;
  closed = false;
  attempts = 0;
  sent = [];
  inbox = inbox;
  released = 0;
}

unfoldable pub close : ZcopyConn → ZcopyConn
close zc = record zc { closed = true }

unfoldable pub add_credits : ℤ → ZcopyConn → ZcopyConn
add_credits n zc = if leb_ℤ n (pos 0) then zc else record zc { credits = add64 zc.credits n }

unfoldable pub set_credits : ℤ → ZcopyConn → ZcopyConn
set_credits n zc = record zc { credits = if ltb_ℤ n (pos 1) then pos 1 else n }

pub data Wait : Type 0 where
  blocks : Wait
  granted : ZcopyConn → Wait
  refused : ConnError → Wait

-- The loop of waitCredit, from one look at the state to the next: it blocks, takes a credit, also
-- after the connection is closed, or gives up.
unfoldable pub wait_credit : ZcopyConn → Wait
wait_credit zc =
    if ltb_ℤ (pos 0) zc.credits
    then granted (record zc { credits = sub64 zc.credits (pos 1) })
    else if zc.closed
    then refused net_closed
    else blocks

-- What announces a payload.
abbrev pub meta_message : ℕ → Str → ℤ → Message
meta_message req_id payload data_offset = record (blank op_get_meta) {
  req_id = req_id;
  size = pos (length payload);
  data_offset = some data_offset;
}

module _ (delivers : ℕ → Bool) where
  -- conn.SendMessage and offsetOut.SendMessageAt
  unfoldable pub send_frame : Frame → ZcopyConn → ZcopyConn × Outcome
  send_frame f zc =
      if delivers zc.attempts
      then (record zc { attempts = suc zc.attempts; sent = zc.sent ++ f ∷ [] }, done)
      else (record zc { attempts = suc zc.attempts }, failed send_failed)

  -- The operation of every message that the server sends is a constant, so Encode does not fail.
  unfoldable pub send_control : Message → ZcopyConn → ZcopyConn × Outcome
  unfolding send_frame
  send_control msg zc = send_frame (control msg) zc

  unfoldable pub send_resp_ok : ℕ → ZcopyConn → ZcopyConn × Outcome
  unfolding send_control
  send_resp_ok req_id zc = send_control (record (blank op_resp_ok) { req_id = req_id }) zc

  unfoldable pub send_resp_err : ℕ → Str → ZcopyConn → ZcopyConn × Outcome
  unfolding send_control
  send_resp_err req_id text zc =
      send_control (record (blank op_resp_err) { req_id = req_id; error = text }) zc

  unfoldable pub send_after_meta : Str → ℤ → ZcopyConn × Outcome → ZcopyConn × Outcome
  send_after_meta payload data_offset (zc, failed e) = (zc, failed e)
  send_after_meta payload data_offset (zc, done) = send_frame (payload_at payload data_offset) zc

  -- sendGetPayload once the credit is taken: under sendMu the meta message and the payload
  unfoldable pub send_payload : ℕ → Str → ℤ → ZcopyConn → ZcopyConn × Outcome
  send_payload req_id payload data_offset zc =
      if ltb_ℤ data_offset (pos 0)
      then (zc, failed (invalid_offset data_offset))
      else send_after_meta payload data_offset
          (send_control (meta_message req_id payload data_offset) zc)

-- conn.RecvMessage copies the next message and releases it; with nothing there it times out.
unfoldable pub recv_message : ZcopyConn → ZcopyConn × Option Str
recv_message zc = elim zc.inbox [
  | [] ↦ (zc, none)
  | m ∷ ms ↦ (record zc { inbox = ms; released = suc zc.released }, some m.payload)
]

-- `none` is a receive or a decoding that fails.
unfoldable pub recv_control : Json → ZcopyConn → ZcopyConn × Option Message
unfolding recv_message
recv_control json zc =
    let (zc', got) = recv_message zc in
    elim got [
      | none ↦ (zc', none)
      | some payload ↦ elim (decode json payload) [ err e ↦ (zc', none) | ok msg ↦ (zc', some msg) ]
    ]

-- The checks of recvPayloadAt on what was received; the deferred Release happens on each way out.
unfoldable pub check_payload : ℤ → ℤ → Borrowed → Outcome
check_payload size shared_offset m =
    if not (eqb_ℤ m.shared_offset shared_offset)
    then failed (offset_mismatch m.shared_offset shared_offset)
    else if not (eqb_ℤ (pos (length m.payload)) size)
    then failed (size_mismatch (pos (length m.payload)) size)
    else done

unfoldable pub receive_borrowed : ℤ → ℤ → List Borrowed → ZcopyConn → ZcopyConn × Outcome
unfolding check_payload
receive_borrowed size shared_offset [] zc = (zc, failed recv_failed)
receive_borrowed size shared_offset (m ∷ ms) zc =
    (record zc { inbox = ms; released = suc zc.released }, check_payload size shared_offset m)

unfoldable pub recv_payload_at : ℤ → ℤ → ZcopyConn → ZcopyConn × Outcome
unfolding receive_borrowed
recv_payload_at size shared_offset zc =
    if ltb_ℤ size (pos 0)
    then (zc, failed (invalid_size size))
    else if ltb_ℤ shared_offset (pos 0)
    then (zc, failed (invalid_offset shared_offset))
    else if eqb_ℤ size (pos 0)
    then (zc, done)
    else receive_borrowed size shared_offset zc.inbox zc
