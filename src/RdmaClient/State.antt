-- ===== src/RdmaClient/State.antt =====
-- pkg/rdma/client/client.go: the state of a Client, its pending requests, its sends and its receive
-- loop. Each mutex makes what it guards one step. The transport is an argument: `delivers n` says
-- whether the n-th send succeeds, and `inbox` is what has arrived, oldest first; a send that times out,
-- or whose context has ended, is one that fails. The channel of a request is named by the request's id,
-- and `boxes` holds what was put into a channel and not yet taken out: room for one, as in the source.
use rdma_demo.Base.{
  ℕ, suc, ◌+◌, ◌%◌, Bool, true, false, Option, none, some, List, [], ◌∷◌, ◌++◌, if◌then◌else◌,
  ℕ_discrete,
}
use rdma_demo.Base.Int.{ℤ, pos, full_range}
use rdma_demo.Base.Text.{Str}
use rdma_demo.Base.Map.{Map, lookup, insert, erase}
use rdma_demo.ZcopyProto.{
  Message, Coded, blank, op_ack, Json, decode, ok, err, OpKind, hello_resp, resp_ok, resp_err,
  get_meta, op_kind,
}
use rdma_demo.Transport.{Frame, control, Borrowed}

pub data ClientError : Type 0 where
  net_closed send_failed recv_failed decode_failed context_done : ClientError
  invalid_ref out_of_range bucket_empty bucket_key_empty : ClientError
  remote_error unexpected_op : Str → ClientError
  unexpected_hello hello_failed : Str → ClientError
  invalid_get_size payload_size_mismatch invalid_data_offset not_honored : ℤ → ℤ → ClientError
  missing_data_offset : ClientError

-- inboundResult: a message, with the payload if it was a get_meta, or an error.
pub data Inbound : Type 0 where
  answered : Message → Option Borrowed → Inbound
  broken : ClientError → Inbound

pub record Client : Type 0 where
  pub shared_memory : Str
  pub frame_payload : ℤ
  pub max_credits : ℤ
  pub next_req_id : ℕ
  pub next_token : ℕ
  pub pending : Map ℕ Unit
  pub boxes : Map ℕ Inbound
  pub releases : Map ℕ Borrowed
  pub recv_err : Option ClientError
  pub receiving : Bool
  pub closed : Bool
  pub attempts : ℕ
  pub sent : List Frame
  pub inbox : List Borrowed
  -- how often Release was called on a borrowed payload, and how often sendAck(1)
  pub released : ℕ
  pub acks : ℕ

-- The state that New starts the loops with.
unfoldable pub new_client : Str → ℤ → ℤ → Client
new_client shared_memory frame_payload max_credits = record {
  shared_memory = shared_memory;
  frame_payload = frame_payload;
  max_credits = max_credits;
  next_req_id = 0;
  next_token = 0;
  pending = [];
  boxes = [];
  releases = [];
  recv_err = none;
  receiving = true;
  closed = false;
  attempts = 0;
  sent = [];
  inbox = [];
  released = 0;
  acks = 0;
}

unfoldable pub set_recv_err : ClientError → Client → Client
set_recv_err e c = elim c.recv_err [ none ↦ record c { recv_err = some e } | some first ↦ c ]

-- Each pending channel receives the error, and none is pending any more.
unfoldable pub fill : ClientError → Map ℕ Unit → Map ℕ Inbound → Map ℕ Inbound
fill e [] boxes = boxes
fill e ((id, u) ∷ rest) boxes = insert ℕ_discrete id (broken e) (fill e rest boxes)

unfoldable pub fail_all_pending : ClientError → Client → Client
unfolding fill
fail_all_pending e c = record c { pending = []; boxes = fill e c.pending c.boxes }

-- atomic.Uint64.Add(1)
unfoldable pub next_request_id : Client → Client × ℕ
next_request_id c = let id = (c.next_req_id + 1) % full_range in (record c { next_req_id = id }, id)

unfoldable pub register_pending : ℕ → Client → Client
register_pending id c = record c {
  pending = insert ℕ_discrete id tt c.pending;
  boxes = erase ℕ_discrete id c.boxes;
}

unfoldable pub remove_pending : ℕ → Client → Client
remove_pending id c = record c { pending = erase ℕ_discrete id c.pending }

unfoldable pub deliver : ℕ → Inbound → Client → Client × Bool
deliver id res c = elim (lookup ℕ_discrete id c.pending) [
  | none ↦ (c, false)
  | some u ↦ (
    record c { pending = erase ℕ_discrete id c.pending; boxes = insert ℕ_discrete id res c.boxes },
    true,
  )
]

-- the Release of a borrowed payload; that of the transport cannot fail the client's own state
unfoldable pub release_borrowed : Client → Client
release_borrowed c = record c { released = suc c.released }

-- sendSerialized: sendLoop runs the operation, unless the client is closed.
unfoldable pub send_serialized :
    (Client → Client × Option ClientError) → Client → Client × Option ClientError
send_serialized op c = if c.closed then (c, some net_closed) else op c

abbrev pub ack_message : Message
ack_message = record (blank op_ack) { ack = pos 1 }

module _ (delivers : ℕ → Bool) where
  -- conn.SendMessage and SendMessageAt
  unfoldable pub send_frame : Frame → Client → Client × Option ClientError
  send_frame f c =
      if delivers c.attempts
      then (record c { attempts = suc c.attempts; sent = c.sent ++ f ∷ [] }, none)
      else (record c { attempts = suc c.attempts }, some send_failed)

  -- sendControl in sendControlSerialized. The operation of every message that the client sends is a
  -- constant, so that Encode does not fail.
  unfoldable pub send_control_serialized : Message → Client → Client × Option ClientError
  unfolding send_frame send_serialized
  send_control_serialized msg c = send_serialized (send_frame (control msg)) c

  unfoldable pub send_ack : Client → Client × Option ClientError
  unfolding send_control_serialized
  send_ack c = send_control_serialized ack_message (record c { acks = suc c.acks })

  -- `_ = borrowed.Release(); _ = c.sendAck(1)`
  unfoldable pub give_back : Client → Client
  unfolding release_borrowed send_ack
  give_back c = (send_ack (release_borrowed c)).0

  -- recvLoop for a get_meta message, with its payload
  unfoldable pub deliver_payload : Message → Borrowed → Client → Client
  unfolding deliver give_back
  deliver_payload msg b c =
      let (c', taken) = deliver msg.req_id (answered msg (some b)) c in
      if taken then c' else give_back c'

  -- RecvBorrowedMessage after a get_meta, with what has arrived
  unfoldable pub recv_borrowed : Message → List Borrowed → Client → Option Client
  unfolding deliver_payload
  recv_borrowed msg [] c = none
  recv_borrowed msg (b ∷ rest) c = some (deliver_payload msg b (record c { inbox = rest }))

  -- recvLoop after Decode. `none` is a receive that waits.
  unfoldable pub recv_decoded : OpKind → Message → Client → Option Client
  unfolding deliver recv_borrowed
  recv_decoded hello_resp msg c = some (deliver msg.req_id (answered msg none) c).0
  recv_decoded resp_ok msg c = some (deliver msg.req_id (answered msg none) c).0
  recv_decoded resp_err msg c = some (deliver msg.req_id (answered msg none) c).0
  recv_decoded get_meta msg c = recv_borrowed msg c.inbox c
  recv_decoded _ msg c = some c

-- recvLoop when a receive or a decoding fails
unfoldable pub recv_fails : ClientError → Client → Client
unfolding set_recv_err fail_all_pending
recv_fails e c = record (fail_all_pending e (set_recv_err e c)) { receiving = false }

-- recvLoop after RecvMessage
unfoldable pub recv_coded : (ℕ → Bool) → Coded Message → Client → Option Client
unfolding recv_decoded recv_fails
recv_coded delivers (err e) c = some (recv_fails decode_failed c)
recv_coded delivers (ok msg) c = recv_decoded delivers (op_kind msg.op) msg c

unfoldable pub recv_arrived : (ℕ → Bool) → Json → List Borrowed → Client → Option Client
unfolding recv_coded
recv_arrived delivers json [] c = none
recv_arrived delivers json (m ∷ rest) c =
    recv_coded delivers (decode json m.payload) (record c { inbox = rest })

-- One round of recvLoop, with what has arrived.
unfoldable pub recv_round : (ℕ → Bool) → Json → Client → Option Client
unfolding recv_arrived
recv_round delivers json c = recv_arrived delivers json c.inbox c

-- What waitResult returns; `waits` is a select none of whose cases is ready.
pub data Waited : Type 0 where
  waits : Waited
  got : Message → Option Borrowed → Waited
  gave_up : ClientError → Waited

-- waitResult: the case of the channel. A channel is closed only after a result was put into it, so
-- that the first receive from it finds the result.
unfoldable pub wait_answer : ℕ → Client → Client × Waited
wait_answer id c = elim (lookup ℕ_discrete id c.boxes) [
  | none ↦ (c, waits)
  | some (answered msg b) ↦ (record c { boxes = erase ℕ_discrete id c.boxes }, got msg b)
  | some (broken e) ↦ (record c { boxes = erase ℕ_discrete id c.boxes }, gave_up e)
]

-- waitResult: the case of the context
unfoldable pub wait_context : ℕ → Client → Client × Waited
unfolding remove_pending
wait_context id c = (remove_pending id c, gave_up context_done)

-- waitResult: the case of closedCh
unfoldable pub wait_closed : Client → Client × Waited
wait_closed c =
    if c.closed
    then (c, elim c.recv_err [ none ↦ gave_up net_closed | some e ↦ gave_up e ])
    else (c, waits)
