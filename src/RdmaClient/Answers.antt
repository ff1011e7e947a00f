-- ===== src/RdmaClient/Answers.antt =====
-- pkg/rdma/client/client.go: which call receives which answer, and what a failed call leaves behind
use rdma_demo.Base.{
  ℕ, ◌≡◌, refl, Bool, true, false, Option, none, some, [], ◌∷◌, arith, ℕ_discrete, ite,
  if◌then◌else◌, if-elim, ◌%◌, ◌+◌, ap,
}
use rdma_demo.Base.Int.{ℤ, full_range}
use rdma_demo.Base.Text.{Str}
use rdma_demo.Base.Map.{Map, lookup, lookup-insert, lookup-erase, lookup-nil}
use rdma_demo.ZcopyProto.{Message}
use rdma_demo.RdmaClient.Config.{BufferRef}
use rdma_demo.RdmaClient.State.{
  Client, ClientError, Inbound, broken, set_recv_err, fill, fail_all_pending, next_request_id,
  register_pending, remove_pending, deliver, send_frame, send_serialized, recv_fails, wait_context,
  gave_up, context_done,
}
use rdma_demo.RdmaClient.Calls.{
  Started, started, refused, after_request, put_message, slice, after_put_req, send_put,
  request_put,
}

-- The id that the next request gets.
abbrev pub fresh_id : Client → ℕ
fresh_id c = (c.next_req_id + 1) % full_range

abbrev pub failed_start : Started → Bool
failed_start (started id) = false
failed_start (refused e) = true

abbrev pub box : ℕ → Client → Option Inbound
box id c = lookup ℕ_discrete id c.boxes

abbrev pub waiting_for : ℕ → Client → Option (Unit {0})
waiting_for id c = lookup ℕ_discrete id c.pending

-- A result reaches the channel of its own request, if that request is pending, and no other channel;
-- the request is pending no more, and the others are as before. The caller learns whether it was.
pub deliver_lem :
    (id : ℕ) (res : Inbound) (c : Client) (other : ℕ)
    → (box other (deliver id res c).0 ≡ (
        if (deliver id res c).1
        then ite (ℕ_discrete id other) (some res) (box other c)
        else box other c))
      × (waiting_for other (deliver id res c).0
          ≡ ite (ℕ_discrete id other) none (waiting_for other c))
      × ((deliver id res c).1 ≡ (elim (waiting_for id c) [ none ↦ false | some u ↦ true ]))
unfolding deliver
deliver_lem id res c other = (
  ground (arith, lookup-insert ℕ_discrete id other res c.boxes),
  ground (arith, lookup-erase ℕ_discrete id other c.pending),
  ground arith,
)

fill_lem :
    (e : ClientError) (p : Map ℕ (Unit {0})) (boxes : Map ℕ Inbound) (id : ℕ)
    → lookup ℕ_discrete id (fill e p boxes) ≡ (elim (lookup ℕ_discrete id p) [
      | none ↦ lookup ℕ_discrete id boxes
      | some u ↦ some (broken e)
    ])
unfolding fill lookup
fill_lem e [] boxes id = refl
fill_lem e ((k, u) ∷ p) boxes id =
    ground (arith, fill_lem e p boxes id, lookup-insert ℕ_discrete k id (broken e) (fill e p boxes))

-- When the receive loop ends, every pending request is answered with the error, no other channel
-- changes, and nothing is pending any more; the first error is the one that is remembered.
pub recv_fails_lem :
    (e : ClientError) (c : Client) (id : ℕ)
    → (box id (recv_fails e c)
        ≡ (elim (waiting_for id c) [ none ↦ box id c | some u ↦ some (broken e) ]))
      × (waiting_for id (recv_fails e c) ≡ none)
      × ((recv_fails e c).recv_err ≡ (elim c.recv_err [ none ↦ some e | some first ↦ some first ]))
unfolding recv_fails fail_all_pending set_recv_err
recv_fails_lem e c id = (
  ground (arith, fill_lem e c.pending c.boxes id),
  ground (arith, lookup-nil {V = Unit {0}} ℕ_discrete id),
  ground arith,
)

module _ (delivers : ℕ → Bool) where
  send_serialized-pending :
      (op : Client → Client × Option ClientError) (c : Client)
      → (op c).0.pending ≡ c.pending
      → (send_serialized op c).0.pending ≡ c.pending
  unfolding send_serialized
  send_serialized-pending op c h =
      if-elim (λ (r : Client × Option ClientError). r.0.pending ≡ c.pending) c.closed (λ _. refl)
        (λ _. h)

  send_put-pending :
      (msg : Message) (p : Str) (o : ℤ) (c : Client)
      → (send_put delivers msg p o c).0.pending ≡ c.pending
  unfolding send_put after_put_req send_frame
  send_put-pending msg p o c = ground arith

  after_request-pending :
      (id : ℕ) (r : Client × Option ClientError) (other : ℕ)
      → waiting_for other (after_request id r).0 ≡ (
          if failed_start (after_request id r).1
          then ite (ℕ_discrete id other) none (waiting_for other r.0)
          else waiting_for other r.0)
  unfolding after_request remove_pending
  after_request-pending id (c, none) other = refl
  after_request-pending id (c, some e) other = lookup-erase ℕ_discrete id other c.pending

  -- A PUT whose send fails leaves no pending request behind, and one that is sent leaves exactly its
  -- own, under a new id.
  pub request_put-pending :
      (bucket key : Str) (ref : BufferRef) (c : Client) (other : ℕ)
      → waiting_for other (request_put delivers bucket key ref c).0
        ≡ ite
            (ℕ_discrete (fresh_id c) other)
            (if failed_start (request_put delivers bucket key ref c).1 then none else some tt)
            (waiting_for other c)
  unfolding request_put next_request_id register_pending
  request_put-pending bucket key ref c other =
      let id = fresh_id c in
      let c' = register_pending id (record c { next_req_id = id }) in
      let op =
        send_put delivers (put_message bucket key ref id) (slice c.shared_memory ref) ref.offset in
      ground (
        arith,
        after_request-pending id (send_serialized op c') other,
        ap (lookup ℕ_discrete other) (
            send_serialized-pending op c' (
              send_put-pending (put_message bucket key ref id) (slice c.shared_memory ref)
                ref.offset c')),
        lookup-insert ℕ_discrete id other tt c.pending,
      )

-- A call whose context ends stops waiting for its answer. An answer that was put into a channel
-- before stays there, and the numbers of releases and acknowledgements stay as they were.
pub wait_context-keeps :
    (id : ℕ) (c : Client) (other : ℕ)
    → ((wait_context id c).1 ≡ gave_up context_done)
      × (waiting_for other (wait_context id c).0
          ≡ ite (ℕ_discrete id other) none (waiting_for other c))
      × (box other (wait_context id c).0 ≡ box other c)
      × ((wait_context id c).0.acks ≡ c.acks)
      × ((wait_context id c).0.released ≡ c.released)
unfolding wait_context remove_pending
wait_context-keeps id c other = (refl, lookup-erase ℕ_discrete id other c.pending, refl, refl, refl)
