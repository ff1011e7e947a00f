-- ===== src/InmemZcopy/Agreement.antt =====
-- internal/inmems3/zcopy/service.go and internal/s3rdmaserver/zcopy/service.go: where the two copies of
-- the service agree
use rdma_demo.Base.{ℕ, suc, List, ◌≡◌, refl, ap, ◌∙◌, Bool, Option, none, some, [], ◌∷◌, arith}
use rdma_demo.Base.Int.{ℤ}
use rdma_demo.Base.Text.{Str}
use rdma_demo.ZcopyProto.{Message, Json}
use rdma_demo.InmemStore.State.{Object}
use rdma_demo.RdmaStore as Loaded
use rdma_demo.ZcopyServer.Conn as Rdma
use rdma_demo.ZcopyServer.Conn.{
  Frame, payload_at, Borrowed, Outcome, done, failed, send_frame, send_after_meta, meta_message,
  send_payload, recv_message, check_payload, receive_borrowed, recv_payload_at,
}
use rdma_demo.ZcopyServer.Handlers as RdmaHandlers
use rdma_demo.ZcopyServer.Handlers.{
  GetTask, PutCheck, put_refused, put_accepted, GetCheck, get_refused, get_offered,
  object_too_large, begun, waiting, holding, Session, check_put, act_put, finish_put, check_get,
  act_get,
}
use rdma_demo.InmemZcopy.Conn
use rdma_demo.InmemZcopy.Conn.{
  ZcopyConn, transmit, send_announced, Received, receipt, not_received, payload_receipt,
  borrow_payload, recv_payload_receipt_at,
}
use rdma_demo.InmemZcopy.Handlers.{
  ObjectStore, store_received, respond, answer_error, handle_put, handle_get,
}

module _ (delivers : ℕ → Bool) where
  transmit-send_frame :
      (f : Frame) (zc : ZcopyConn) → transmit delivers f zc ≡ send_frame delivers f zc
  unfolding transmit send_frame
  transmit-send_frame f zc = ground arith

  pub send_control-agrees :
      (m : Message) (zc : ZcopyConn)
      → Conn.send_control delivers m zc ≡ Rdma.send_control delivers m zc
  unfolding Conn.send_control Rdma.send_control
  send_control-agrees m zc = ground arith

  pub send_resp_ok-agrees :
      (r : ℕ) (zc : ZcopyConn) → Conn.send_resp_ok delivers r zc ≡ Rdma.send_resp_ok delivers r zc
  unfolding Conn.send_resp_ok Rdma.send_resp_ok
  send_resp_ok-agrees r zc = ground arith

  pub send_resp_err-agrees :
      (r : ℕ) (text : Str) (zc : ZcopyConn)
      → Conn.send_resp_err delivers r text zc ≡ Rdma.send_resp_err delivers r text zc
  unfolding Conn.send_resp_err Rdma.send_resp_err
  send_resp_err-agrees r text zc = ground arith

  pub send_announced-send_payload :
      (r : ℕ) (payload : Str) (o : ℤ) (zc : ZcopyConn)
      → send_announced delivers r payload o zc ≡ send_payload delivers r payload o zc
  unfolding send_announced send_payload send_after_meta
  send_announced-send_payload r payload o zc =
      let m = meta_message r payload o in
      ground (
        arith,
        send_control-agrees m zc,
        transmit-send_frame (payload_at payload o) (Rdma.send_control delivers m zc).0,
      )

pub recv_control-agrees :
    (json : Json) (zc : ZcopyConn) → Conn.recv_control json zc ≡ Rdma.recv_control json zc
unfolding Conn.recv_control Rdma.recv_control recv_message
recv_control-agrees json zc = ground arith

outcome_of : Received → Outcome
outcome_of (receipt r) = done
outcome_of (not_received e) = failed e

payload_receipt-check :
    (md5 : Str → Str) (size o : ℤ) (m : Borrowed)
    → outcome_of (payload_receipt md5 size o m) ≡ check_payload size o m
unfolding outcome_of payload_receipt check_payload
payload_receipt-check md5 size o m = ground arith

borrow_payload-agrees :
    (md5 : Str → Str) (size o : ℤ) (l : List Borrowed) (zc : ZcopyConn)
    → let r = borrow_payload md5 size o l zc in (r.0, outcome_of r.1) ≡ receive_borrowed size o l zc
unfolding borrow_payload receive_borrowed outcome_of
borrow_payload-agrees md5 size o [] zc = refl
borrow_payload-agrees md5 size o (m ∷ l) zc =
    ap (λ x. (record zc { inbox = l; released = suc zc.released }, x))
      (payload_receipt-check md5 size o m)

recv_payload-agrees :
    (md5 : Str → Str) (size o : ℤ) (zc : ZcopyConn)
    → let r = recv_payload_receipt_at md5 size o zc in
      (r.0, outcome_of r.1) ≡ recv_payload_at size o zc
unfolding recv_payload_receipt_at recv_payload_at outcome_of
recv_payload-agrees md5 size o zc = ground (arith, borrow_payload-agrees md5 size o zc.inbox zc)

-- The object of the in-memory store as one of the loaded store.
abbrev pub as_loaded : Option Object → Option Loaded.Object
as_loaded none = none
as_loaded (some o) = some (record { body = o.body; etag = o.etag; last_modified = o.last_modified })

-- CreateBucket changes no object.
abbrev pub KeepsObjects : {S : Type 0} → ObjectStore S → Type 0
KeepsObjects {S} api =
    (name : Str) (s : S) (bucket key : Str)
    → api.get_object bucket key (api.create_bucket name s) ≡ api.get_object bucket key s

-- A store behind the RDMA server's interface.
abbrev pub adapted :
    {S : Type 0} (api : ObjectStore S) → KeepsObjects api → RdmaHandlers.ObjectStore S
adapted api keeps = record {
  create_bucket = api.create_bucket;
  get_object = λ bucket key s. as_loaded (api.get_object bucket key s);
  get_object-create_bucket = λ name s bucket key. ap as_loaded (keeps name s bucket key);
}

module _ {S : Type 0} (api : ObjectStore S) (keeps : KeepsObjects api) (md5 : Str → Str) (limit : ℤ)
    (delivers : ℕ → Bool) where
  store_received-agrees :
      (r : ℕ) (bucket : Str) (store : S) (zc : ZcopyConn) (x : Received)
      → store_received api md5 delivers r bucket store (zc, x)
        ≡ finish_put (adapted api keeps) delivers r bucket store (zc, outcome_of x)
  unfolding store_received finish_put outcome_of
  store_received-agrees r bucket store zc (receipt y) =
      ground (arith, send_resp_ok-agrees delivers r zc)
  store_received-agrees r bucket store zc (not_received e) = refl

  -- What handlePut does, by what its guards decide.
  perform_put : ℕ → PutCheck → ZcopyConn → S → ZcopyConn × S × Outcome
  perform_put req_id (put_refused r text) zc store = respond api md5 delivers r text zc store
  perform_put req_id (put_accepted bucket size o) zc store =
      store_received api md5 delivers req_id bucket store (recv_payload_receipt_at md5 size o zc)

  perform_put-act_put :
      (r : ℕ) (c : PutCheck) (zc : ZcopyConn) (store : S)
      → perform_put r c zc store ≡ act_put (adapted api keeps) delivers r c zc store
  unfolding perform_put act_put respond
  perform_put-act_put r (put_refused q text) zc store =
      ap (λ (x : ZcopyConn × Outcome). (x.0, store, x.1)) (send_resp_err-agrees delivers q text zc)
  perform_put-act_put r (put_accepted bucket size o) zc store =
      let got = recv_payload_receipt_at md5 size o zc in
      store_received-agrees r bucket store got.0 got.1
      ∙ ap (finish_put (adapted api keeps) delivers r bucket store)
          (recv_payload-agrees md5 size o zc)

  handle_put-perform_put :
      (msg : Message) (zc : ZcopyConn) (store : S)
      → handle_put api md5 delivers limit msg zc store
        ≡ perform_put msg.req_id (check_put limit msg) zc store
  unfolding handle_put perform_put check_put object_too_large RdmaHandlers.missing_req_id
      RdmaHandlers.bucket_key_empty RdmaHandlers.invalid_put_size RdmaHandlers.missing_data_offset
  handle_put-perform_put msg zc store = ground arith

  pub handle_put-agrees :
      (msg : Message) (zc : ZcopyConn) (store : S)
      → handle_put api md5 delivers limit msg zc store
        ≡ RdmaHandlers.handle_put (adapted api keeps) delivers limit msg zc store
  unfolding RdmaHandlers.handle_put
  handle_put-agrees msg zc store =
      handle_put-perform_put msg zc store
      ∙ perform_put-act_put msg.req_id (check_put limit msg) zc store

  unfoldable pub perform_get : ℕ → GetCheck → ZcopyConn → ZcopyConn × Option GetTask
  perform_get req_id (get_refused text) zc = answer_error api md5 delivers req_id text zc
  perform_get req_id (get_offered payload o) zc = (zc, some (waiting req_id payload o))

  perform_get-act_get :
      (r : ℕ) (c : GetCheck) (zc : ZcopyConn)
      → perform_get r c zc ≡ act_get (adapted api keeps) delivers r c zc
  unfolding perform_get act_get answer_error
  perform_get-act_get r (get_refused text) zc =
      ap (λ (x : ZcopyConn × Outcome). (x.0, none)) (send_resp_err-agrees delivers r text zc)
  perform_get-act_get r (get_offered payload o) zc = refl

  pub handle_get-perform_get :
      (msg : Message) (zc : ZcopyConn) (store : S)
      → handle_get api md5 delivers msg zc store
        ≡ perform_get msg.req_id (check_get (adapted api keeps) msg store) zc
  unfolding handle_get perform_get check_get RdmaHandlers.bucket_key_empty
      RdmaHandlers.invalid_max_size RdmaHandlers.missing_data_offset RdmaHandlers.key_not_found
      RdmaHandlers.object_exceeds
  handle_get-perform_get msg zc store = ground arith

  pub handle_get-agrees :
      (msg : Message) (zc : ZcopyConn) (store : S)
      → handle_get api md5 delivers msg zc store
        ≡ RdmaHandlers.handle_get (adapted api keeps) delivers msg zc store
  unfolding RdmaHandlers.handle_get
  handle_get-agrees msg zc store =
      handle_get-perform_get msg zc store
      ∙ perform_get-act_get msg.req_id (check_get (adapted api keeps) msg store) zc
