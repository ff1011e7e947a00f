-- ===== src/InmemZcopy/Handlers.antt =====
-- internal/inmems3/zcopy/service.go: the handlers of PUT and GET requests
use rdma_demo.Base.{ℕ, Bool, Option, none, some, length, ◌||◌, ◌&&◌, ◌==◌, ◌++◌, if◌then◌else◌}
use rdma_demo.Base.Int.{ℤ, pos, ltb_ℤ}
use rdma_demo.Base.Text.{Str, codes, is_empty, trim_space, decimal}
use rdma_demo.Base.Signed.{signed_decimal}
use rdma_demo.ZcopyProto.{Message}
use rdma_demo.InmemStore.State.{Object}
use rdma_demo.ZcopyServer.Conn.{Outcome, failed}
use rdma_demo.ZcopyServer.Handlers.{GetTask, waiting}
use rdma_demo.InmemZcopy.Conn.{
  ZcopyConn, send_resp_ok, send_resp_err, Received, receipt, not_received, recv_payload_receipt_at,
}

-- The interface ObjectStore, over the states of a store.
pub record ObjectStore (S : Type 0) : Type 0 where
  pub create_bucket : Str → S → S
  pub get_object : Str → Str → S → Option Object

module _ {S : Type 0} (api : ObjectStore S) (md5 : Str → Str) (delivers : ℕ → Bool) where
  -- handlePut after recvPayloadReceiptAt
  unfoldable pub store_received : ℕ → Str → S → ZcopyConn × Received → ZcopyConn × S × Outcome
  store_received req_id bucket store (zc, not_received e) = (zc, store, failed e)
  store_received req_id bucket store (zc, receipt r) =
      let (zc', o) = send_resp_ok delivers req_id zc in (zc', api.create_bucket bucket store, o)

  -- An error response ends the handler.
  unfoldable pub respond : ℕ → Str → ZcopyConn → S → ZcopyConn × S × Outcome
  respond req_id text zc store =
      let (zc', o) = send_resp_err delivers req_id text zc in (zc', store, o)

  unfoldable pub handle_put : ℤ → Message → ZcopyConn → S → ZcopyConn × S × Outcome
  unfolding respond
  handle_put max_object_size msg zc store =
      let bucket = trim_space msg.bucket in
      let key = trim_space msg.key in
      if msg.req_id == 0
      then respond 0 (codes "missing req_id") zc store
      else if is_empty bucket || is_empty key
      then respond msg.req_id (codes "bucket/key must not be empty") zc store
      else if ltb_ℤ msg.size (pos 0)
      then respond msg.req_id (codes "invalid put size") zc store
      else elim msg.data_offset [
        | none ↦ respond msg.req_id (codes "missing data_offset") zc store
        | some data_offset ↦
            if ltb_ℤ (pos 0) max_object_size && ltb_ℤ max_object_size msg.size
            then respond msg.req_id
                (codes "object too large: "
                  ++ signed_decimal msg.size
                  ++ codes " > "
                  ++ signed_decimal max_object_size)
                zc store
            else store_received msg.req_id bucket store
                (recv_payload_receipt_at md5 msg.size data_offset zc)
      ]

  -- A goroutine answers with an error, which is only logged if it fails, and ends.
  unfoldable pub answer_error : ℕ → Str → ZcopyConn → ZcopyConn × Option GetTask
  answer_error req_id text zc = ((send_resp_err delivers req_id text zc).0, none)

  -- handleGet up to sendGetPayload: a response, or a payload that waits for a credit.
  unfoldable pub handle_get : Message → ZcopyConn → S → ZcopyConn × Option GetTask
  unfolding answer_error
  handle_get msg zc store =
      let bucket = trim_space msg.bucket in
      let key = trim_space msg.key in
      if is_empty bucket || is_empty key
      then answer_error msg.req_id (codes "bucket/key must not be empty") zc
      else if ltb_ℤ msg.max (pos 0)
      then answer_error msg.req_id (codes "invalid max size") zc
      else elim msg.data_offset [
        | none ↦ answer_error msg.req_id (codes "missing data_offset") zc
        | some data_offset ↦ elim (api.get_object bucket key store) [
          | none ↦ answer_error msg.req_id (codes "key not found") zc
          | some obj ↦
              if ltb_ℤ (pos 0) msg.max && ltb_ℤ msg.max (pos (length obj.body))
              then answer_error msg.req_id
                  (codes "object exceeds max="
                    ++ signed_decimal msg.max
                    ++ codes " size="
                    ++ decimal (length obj.body))
                  zc
              else (zc, some (waiting msg.req_id obj.body data_offset))
        ]
      ]
