-- ===== src/ZcopyServer/Handlers.antt =====
-- internal/s3rdmaserver/zcopy/service.go: the loop of serveConn, message by message, and the
-- goroutines that serve the GET requests, in the pieces between which others may run
use rdma_demo.Base.{
  ℕ, ◌≡◌, Bool, Option, none, some, List, ◌++◌, length, ◌||◌, ◌&&◌, ◌==◌, if◌then◌else◌,
}
use rdma_demo.Base.Int.{ℤ, pos, ltb_ℤ}
use rdma_demo.Base.Text.{Str, codes, is_empty, trim_space, decimal}
use rdma_demo.Base.Signed.{signed_decimal}
use rdma_demo.ZcopyProto.{Message}
use rdma_demo.RdmaStore.{Object}
use rdma_demo.ZcopyServer.Conn.{
  ZcopyConn, Outcome, done, failed, send_resp_ok, send_resp_err, recv_payload_at,
}

unfoldable pub missing_req_id : Str
missing_req_id = codes "missing req_id"

unfoldable pub invalid_credits : Str
invalid_credits = codes "invalid credits"

unfoldable pub bucket_empty : Str
bucket_empty = codes "bucket must not be empty"

unfoldable pub bucket_key_empty : Str
bucket_key_empty = codes "bucket/key must not be empty"

unfoldable pub invalid_put_size : Str
invalid_put_size = codes "invalid put size"

unfoldable pub invalid_max_size : Str
invalid_max_size = codes "invalid max size"

unfoldable pub missing_data_offset : Str
missing_data_offset = codes "missing data_offset"

unfoldable pub key_not_found : Str
key_not_found = codes "key not found"

unfoldable pub unsupported_op : Str
unsupported_op = codes "unsupported op"

unfoldable pub object_too_large : ℤ → ℤ → Str
object_too_large size limit =
    codes "object too large: " ++ signed_decimal size ++ codes " > " ++ signed_decimal limit

unfoldable pub object_exceeds : ℤ → ℕ → Str
object_exceeds limit size =
    codes "object exceeds max=" ++ signed_decimal limit ++ codes " size=" ++ decimal size

-- The part of the store that the service uses.
pub record ObjectStore (S : Type 0) : Type 0 where
  pub create_bucket : Str → S → S
  pub get_object : Str → Str → S → Option Object
  -- a bucket brings no object, and takes none away
  pub get_object-create_bucket :
      (name : Str) (s : S) (bucket key : Str)
      → get_object bucket key (create_bucket name s) ≡ get_object bucket key s

-- A GET goroutine: not yet begun; in waitCredit with what it read; past it, before sendMu.
pub data GetTask : Type 0 where
  begun : Message → GetTask
  waiting holding : ℕ → Str → ℤ → GetTask

pub record Session (S : Type 0) : Type 0 where
  pub zc : ZcopyConn
  pub store : S
  pub tasks : List GetTask
  pub running : Bool

-- What the guards of handlePut decide: one error response to a request id, or bucket, size and offset.
pub data PutCheck : Type 0 where
  put_refused : ℕ → Str → PutCheck
  put_accepted : Str → ℤ → ℤ → PutCheck

unfoldable pub check_put : ℤ → Message → PutCheck
check_put max_object_size msg =
    let bucket = trim_space msg.bucket in
    let key = trim_space msg.key in
    if msg.req_id == 0
    then put_refused 0 missing_req_id
    else if is_empty bucket || is_empty key
    then put_refused msg.req_id bucket_key_empty
    else if ltb_ℤ msg.size (pos 0)
    then put_refused msg.req_id invalid_put_size
    else elim msg.data_offset [
      | none ↦ put_refused msg.req_id missing_data_offset
      | some data_offset ↦
          if ltb_ℤ (pos 0) max_object_size && ltb_ℤ max_object_size msg.size
          then put_refused msg.req_id (object_too_large msg.size max_object_size)
          else put_accepted bucket msg.size data_offset
    ]

-- What handleGet decides before sendGetPayload: an error response, or the payload and its offset.
pub data GetCheck : Type 0 where
  get_refused : Str → GetCheck
  get_offered : Str → ℤ → GetCheck

module _ {S : Type 0} (api : ObjectStore S) where
  unfoldable pub check_get : Message → S → GetCheck
  check_get msg store =
      let bucket = trim_space msg.bucket in
      let key = trim_space msg.key in
      if is_empty bucket || is_empty key
      then get_refused bucket_key_empty
      else if ltb_ℤ msg.max (pos 0)
      then get_refused invalid_max_size
      else elim msg.data_offset [
        | none ↦ get_refused missing_data_offset
        | some data_offset ↦ elim (api.get_object bucket key store) [
          | none ↦ get_refused key_not_found
          | some obj ↦
              if ltb_ℤ (pos 0) msg.max && ltb_ℤ msg.max (pos (length obj.body))
              then get_refused (object_exceeds msg.max (length obj.body))
              else get_offered obj.body data_offset
        ]
      ]

  module _ (delivers : ℕ → Bool) where
    -- handlePut after recvPayloadAt.
    unfoldable pub finish_put : ℕ → Str → S → ZcopyConn × Outcome → ZcopyConn × S × Outcome
    finish_put req_id bucket store (zc, failed e) = (zc, store, failed e)
    finish_put req_id bucket store (zc, done) =
        let (zc', o) = send_resp_ok delivers req_id zc in (zc', api.create_bucket bucket store, o)

    unfoldable pub act_put : ℕ → PutCheck → ZcopyConn → S → ZcopyConn × S × Outcome
    act_put req_id (put_refused r text) zc store =
        let (zc', o) = send_resp_err delivers r text zc in (zc', store, o)
    act_put req_id (put_accepted bucket size data_offset) zc store =
        finish_put req_id bucket store (recv_payload_at size data_offset zc)

    unfoldable pub handle_put : ℤ → Message → ZcopyConn → S → ZcopyConn × S × Outcome
    handle_put max_object_size msg zc store =
        act_put msg.req_id (check_put max_object_size msg) zc store

    unfoldable pub act_get : ℕ → GetCheck → ZcopyConn → ZcopyConn × Option GetTask
    act_get req_id (get_refused text) zc = ((send_resp_err delivers req_id text zc).0, none)
    act_get req_id (get_offered payload data_offset) zc =
        (zc, some (waiting req_id payload data_offset))

    -- handleGet up to sendGetPayload: a response, or a payload that waits for a credit. The error of
    -- a goroutine is only logged.
    unfoldable pub handle_get : Message → ZcopyConn → S → ZcopyConn × Option GetTask
    handle_get msg zc store = act_get msg.req_id (check_get msg store) zc
