-- ===== src/RdmaClient/Calls.antt =====
-- pkg/rdma/client/client.go: the calls of a Client. Each is in two parts, what it does up to
-- waitResult and what it does with the message that waitResult returns; between the two the loops and
-- other calls may run. The arguments of a call are its own.
use rdma_demo.Base.{ℕ, Bool, Option, none, some, length, take, drop, if◌then◌else◌, ◌||◌}
use rdma_demo.Base.Int.{ℤ, pos, pos_part}
use rdma_demo.Base.Text.{Str, is_empty, trim_space}
use rdma_demo.ZcopyProto.{
  Message, blank, op_hello_req, op_ensure_bucket_req, op_put_req, op_get_req,
}
use rdma_demo.Transport.{control, payload_at}
use rdma_demo.RdmaClient.Config.{
  BufferRef, RefError, validate_ref, frame_payload_hint, compute_safe_credits,
}
use rdma_demo.RdmaClient.State.{
  Client, ClientError, invalid_ref, out_of_range, bucket_empty, bucket_key_empty, next_request_id,
  register_pending, remove_pending, send_frame, send_serialized, send_control_serialized,
}

-- The request id that the call waits for, or its error.
pub data Started : Type 0 where
  started : ℕ → Started
  refused : ClientError → Started

-- `if err != nil { c.removePending(reqID); return err }`
unfoldable pub after_request : ℕ → Client × Option ClientError → Client × Started
unfolding remove_pending
after_request id (c, none) = (c, started id)
after_request id (c, some e) = (remove_pending id c, refused e)

abbrev pub ref_error : RefError → ClientError
ref_error RefError.invalid_ref = invalid_ref
ref_error RefError.out_of_range = out_of_range

-- c.sharedMemory[ref.Offset:ref.end()], of a reference that validateRef accepts
unfoldable pub slice : Str → BufferRef → Str
slice memory ref = take (pos_part ref.size) (drop (pos_part ref.offset) memory)

-- The requests, each with its id.
abbrev pub hello_message : Client → ℕ → Message
hello_message c id = record (blank op_hello_req) {
  req_id = id;
  credits =
      compute_safe_credits (pos (length c.shared_memory)) (frame_payload_hint c.frame_payload)
        c.max_credits;
}

abbrev pub ensure_bucket_message : Str → ℕ → Message
ensure_bucket_message bucket id = record (blank op_ensure_bucket_req) {
  req_id = id;
  bucket = bucket;
}

abbrev pub put_message : Str → Str → BufferRef → ℕ → Message
put_message bucket key ref id = record (blank op_put_req) {
  req_id = id;
  bucket = bucket;
  key = key;
  size = ref.size;
  data_offset = some ref.offset;
}

abbrev pub get_message : Str → Str → ℤ → ℤ → ℕ → Message
get_message bucket key target_offset max_size id = record (blank op_get_req) {
  req_id = id;
  bucket = bucket;
  key = key;
  max = max_size;
  data_offset = some target_offset;
}

module _ (delivers : ℕ → Bool) where
  unfoldable pub start_hello : Client → Client × Started
  unfolding next_request_id register_pending send_control_serialized after_request
  start_hello c =
      let (c', id) = next_request_id c in
      after_request id
        (send_control_serialized delivers (hello_message c id) (register_pending id c'))

  unfoldable pub start_ensure_bucket : Str → Client → Client × Started
  unfolding next_request_id register_pending send_control_serialized after_request
  start_ensure_bucket bucket c =
      if is_empty (trim_space bucket)
      then (c, refused bucket_empty)
      else let (c', id) = next_request_id c in
        after_request id (
          send_control_serialized delivers (ensure_bucket_message bucket id)
            (register_pending id c'))

  unfoldable pub after_put_req : Str → ℤ → Client × Option ClientError → Client × Option ClientError
  after_put_req payload offset (c, some e) = (c, some e)
  after_put_req payload offset (c, none) = send_frame delivers (payload_at payload offset) c

  -- the operation that PutZeroCopy hands to sendSerialized
  unfoldable pub send_put : Message → Str → ℤ → Client → Client × Option ClientError
  unfolding send_frame after_put_req
  send_put msg payload offset c = after_put_req payload offset (send_frame delivers (control msg) c)

  unfoldable pub request_put : Str → Str → BufferRef → Client → Client × Started
  unfolding next_request_id register_pending send_serialized send_put after_request
  request_put bucket key ref c =
      let (c', id) = next_request_id c in
      after_request id (
        send_serialized
          (send_put (put_message bucket key ref id) (slice c.shared_memory ref) ref.offset)
          (register_pending id c'))

  unfoldable pub start_put_zero_copy : Str → Str → BufferRef → Client → Client × Started
  unfolding request_put
  start_put_zero_copy bucket key ref c = elim (validate_ref (length c.shared_memory) ref) [
    | some e ↦ (c, refused (ref_error e))
    | none ↦
        if is_empty (trim_space bucket) || is_empty (trim_space key)
        then (c, refused bucket_key_empty)
        else request_put bucket key ref c
  ]

  unfoldable pub request_get : Str → Str → ℤ → ℤ → Client → Client × Started
  unfolding next_request_id register_pending send_control_serialized after_request
  request_get bucket key target_offset max_size c =
      let (c', id) = next_request_id c in
      after_request id (
        send_control_serialized delivers (get_message bucket key target_offset max_size id)
          (register_pending id c'))

  unfoldable pub start_get_zero_copy : Str → Str → ℤ → ℤ → Client → Client × Started
  unfolding request_get
  start_get_zero_copy bucket key target_offset max_size c =
      elim (validate_ref (length c.shared_memory)
        (record { offset = target_offset; size = max_size; token = 0 })) [
          | some e ↦ (c, refused (ref_error e))
          | none ↦
              if is_empty (trim_space bucket) || is_empty (trim_space key)
              then (c, refused bucket_key_empty)
              else request_get bucket key target_offset max_size c
        ]
