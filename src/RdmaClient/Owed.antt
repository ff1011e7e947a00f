-- ===== src/RdmaClient/Owed.antt =====
-- pkg/rdma/client/client.go: the acknowledgements that each operation sends, and the payloads that it
-- leaves to be acknowledged
use rdma_demo.Base.{
  ◌∙◌, ◌%◌, ℕ, suc, ◌+◌, ◌≤◌, ◌≡◌, refl, Bool, Option, none, some, arith, ℕ_discrete, if-elim,
}
use rdma_demo.Base.Int.{ℤ, full_range}
use rdma_demo.Base.Text.{Str, is_empty, trim_space}
use rdma_demo.Base.Map.Weight.{weight, weight-erase_le_self}
use rdma_demo.ZcopyProto.{OpKind, get_meta, op_kind, Message}
use rdma_demo.Transport.{Frame, control, payload_at, Borrowed}
use rdma_demo.RdmaClient.Config.{BufferRef}
use rdma_demo.RdmaClient.State.{
  ack_message, Client, ClientError, Inbound, answered, broken, next_request_id, register_pending,
  remove_pending, release_borrowed, send_frame, send_serialized, send_control_serialized, send_ack,
  give_back,
}
use rdma_demo.RdmaClient.Calls.{
  hello_message, ensure_bucket_message, put_message, get_message, slice, Started, after_request,
  start_hello, start_ensure_bucket, after_put_req, send_put, request_put, start_put_zero_copy,
  request_get, start_get_zero_copy,
}

abbrev new_id : Client → ℕ
new_id c = (c.next_req_id + 1) % full_range

-- Whether a message brings a payload.
abbrev pub brings_kind : OpKind → ℕ
brings_kind get_meta = 1
brings_kind _ = 0

-- Whether a result brings a payload, as a get_meta does.
abbrev pub brings : Inbound → ℕ
brings (answered msg none) = brings_kind (op_kind msg.op)
brings (answered msg (some b)) = 1
brings (broken e) = 0

abbrev pub one : Borrowed → ℕ
one b = 1

-- The payloads acknowledged, held for the caller, and waiting in a channel.
abbrev pub owed : Client → ℕ
owed c = c.acks + weight one c.releases + weight brings c.boxes

-- Nothing that counts has changed.
record Same (c c' : Client) : Type 0 where
  acks : c'.acks ≡ c.acks
  releases : c'.releases ≡ c.releases
  boxes : c'.boxes ≡ c.boxes

Same-owed : {c c' : Client} → Same c c' → owed c' ≡ owed c
Same-owed h = ground (arith, h.acks, h.releases, h.boxes)

module _ (delivers : ℕ → Bool) where
  send_frame-Same : (f : Frame) (c : Client) → Same c (send_frame delivers f c).0
  unfolding send_frame
  send_frame-Same f c = ground arith

  send_serialized-Same :
      (op : Client → Client × Option ClientError) (c : Client)
      → Same c (op c).0
      → Same c (send_serialized op c).0
  unfolding send_serialized
  send_serialized-Same op c h =
      if-elim (λ (r : Client × Option ClientError). Same c r.0) c.closed
        (λ _. record { acks = refl; releases = refl; boxes = refl }) (λ _. h)

  send_control-Same :
      (msg : Message) (c : Client) → Same c (send_control_serialized delivers msg c).0
  unfolding send_control_serialized
  send_control-Same msg c =
      send_serialized-Same (send_frame delivers (control msg)) c (send_frame-Same (control msg) c)

  pub send_ack-owed : (c : Client) → owed (send_ack delivers c).0 ≡ suc (owed c)
  unfolding send_ack
  send_ack-owed c =
      omega (arith, Same-owed (send_control-Same ack_message (record c { acks = suc c.acks })))

  pub give_back-owed : (c : Client) → owed (give_back delivers c) ≡ suc (owed c)
  unfolding give_back send_ack release_borrowed
  give_back-owed c = omega (
    arith,
    Same-owed
        (send_control-Same ack_message (record c { released = suc c.released; acks = suc c.acks })),
  )

  pub give_back-releases : (c : Client) → (give_back delivers c).releases ≡ c.releases
  unfolding give_back send_ack release_borrowed
  give_back-releases c =
      (send_control-Same ack_message
        (record c { released = suc c.released; acks = suc c.acks })).releases

  -- The payload of one token is released and acknowledged once.
  pub give_back-counts :
      (c : Client)
      → ((give_back delivers c).acks ≡ suc c.acks)
        × ((give_back delivers c).released ≡ suc c.released)
  unfolding give_back send_ack release_borrowed send_control_serialized send_serialized send_frame
  give_back-counts c = (ground arith, ground arith)

  after_request-owed :
      (id : ℕ) (r : Client × Option ClientError) → owed (after_request id r).0 ≡ owed r.0
  unfolding after_request remove_pending
  after_request-owed id (c, none) = refl
  after_request-owed id (c, some e) = refl

  register_pending-owed : (id : ℕ) (c : Client) → owed (register_pending id c) ≤ owed c
  unfolding register_pending
  register_pending-owed id c = omega (arith, weight-erase_le_self ℕ_discrete brings id c.boxes)

  send_put-Same :
      (msg : Message) (p : Str) (o : ℤ) (c : Client) → Same c (send_put delivers msg p o c).0
  unfolding send_put
  send_put-Same msg p o c =
      continues (send_frame delivers (control msg) c) (send_frame-Same (control msg) c)
    where
      continues :
          (r : Client × Option ClientError) → Same c r.0 → Same c (after_put_req delivers p o r).0
      continues (c', some e) h = h
      continues (c', none) h =
          let k = send_frame-Same (payload_at p o) c' in
          record {
            acks = k.acks ∙ h.acks;
            releases = k.releases ∙ h.releases;
            boxes = k.boxes ∙ h.boxes;
          }

  -- A request brings and acknowledges nothing.
  request-owed :
      (id : ℕ) (op : Client → Client × Option ClientError) (c : Client)
      → ((c' : Client) → Same c' (op c').0)
      → owed
          (after_request id
            (send_serialized op (register_pending id (record c { next_req_id = id })))).0
        ≤ owed c
  request-owed id op c same =
      let c' = register_pending id (record c { next_req_id = id }) in
      omega (
        arith,
        after_request-owed id (send_serialized op c'),
        Same-owed (send_serialized-Same op c' (same c')),
        register_pending-owed id (record c { next_req_id = id }),
      )

  sends_one :
      (id : ℕ) (msg : Message) (c : Client)
      → owed
          (after_request id (
            send_serialized
              (send_frame delivers (control msg))
              (register_pending id (record c { next_req_id = id })))).0
        ≤ owed c
  sends_one id msg c =
      request-owed id (send_frame delivers (control msg)) c (send_frame-Same (control msg))

  pub start_hello-owed : (c : Client) → owed (start_hello delivers c).0 ≤ owed c
  unfolding start_hello next_request_id send_control_serialized
  start_hello-owed c = sends_one _ (hello_message c (new_id c)) c

  pub start_ensure_bucket-owed :
      (bucket : Str) (c : Client) → owed (start_ensure_bucket delivers bucket c).0 ≤ owed c
  unfolding start_ensure_bucket next_request_id send_control_serialized
  start_ensure_bucket-owed bucket c =
      if-elim (λ (r : Client × Started). owed r.0 ≤ owed c) (is_empty (trim_space bucket))
        (λ _. omega arith) (λ _. sends_one _ (ensure_bucket_message bucket (new_id c)) c)

  request_put-owed :
      (bucket key : Str) (ref : BufferRef) (c : Client)
      → owed (request_put delivers bucket key ref c).0 ≤ owed c
  unfolding request_put next_request_id
  request_put-owed bucket key ref c =
      let msg = put_message bucket key ref (new_id c) in
      let p = slice c.shared_memory ref in
      request-owed (new_id c) (send_put delivers msg p ref.offset) c
        (send_put-Same msg p ref.offset)

  pub start_put-owed :
      (bucket key : Str) (ref : BufferRef) (c : Client)
      → owed (start_put_zero_copy delivers bucket key ref c).0 ≤ owed c
  unfolding start_put_zero_copy
  start_put-owed bucket key ref c = ground (arith, request_put-owed bucket key ref c)

  request_get-owed :
      (bucket key : Str) (o max : ℤ) (c : Client)
      → owed (request_get delivers bucket key o max c).0 ≤ owed c
  unfolding request_get next_request_id send_control_serialized
  request_get-owed bucket key o max c = sends_one _ (get_message bucket key o max (new_id c)) c

  pub start_get-owed :
      (bucket key : Str) (o max : ℤ) (c : Client)
      → owed (start_get_zero_copy delivers bucket key o max c).0 ≤ owed c
  unfolding start_get_zero_copy
  start_get-owed bucket key o max c = ground (arith, request_get-owed bucket key o max c)
