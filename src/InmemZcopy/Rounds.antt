-- ===== src/InmemZcopy/Rounds.antt =====
-- internal/inmems3/zcopy/service.go and internal/s3rdmaserver/zcopy/service.go: one round of serveConn
-- and one step of a goroutine, in the two copies
use rdma_demo.Base.{
  ℕ, ◌≡◌, ◌⊎◌, refl, ap, ◌∙◌, Bool, false, Option, none, some, arith, ◌==◌, inl, inr, if_cong,
}
use rdma_demo.Base.Int.{ℤ, pos, ◌≤ℤ◌, leb_ℤ}
use rdma_demo.Base.Text.{Str, codes, is_empty, trim_space}
use rdma_demo.ZcopyProto.{
  Message, OpKind, hello_req, hello_resp, resp_ok, resp_err, get_meta, unknown, ensure_bucket_req,
  put_req, get_req, acks, op_kind, Json, blank, op_hello_resp,
}
use rdma_demo.ZcopyServer.Conn as Rdma
use rdma_demo.ZcopyServer.Conn.{Outcome, done, failed}
use rdma_demo.ZcopyServer.Handlers as RdmaHandlers
use rdma_demo.ZcopyServer.Handlers.{GetTask, begun, waiting, holding, Session}
use rdma_demo.ZcopyServer.Session.{
  stop, after_send, ignoring, on_hello, on_ensure_bucket, on_put, on_get, on_unknown, dispatch,
  serve_message, serve_round, run_task,
}
use rdma_demo.InmemZcopy.Conn
use rdma_demo.InmemZcopy.Conn.{ZcopyConn}
use rdma_demo.InmemZcopy.Handlers.{ObjectStore, handle_put}
use rdma_demo.InmemZcopy.Session.{
  shut_down, or_return, ignore_error, serve_hello, serve_ensure_bucket, serve_put, handle_get_async,
  serve_other, serve_op, serve_received, serve_once, advance,
}
use rdma_demo.InmemZcopy.Agreement.{
  KeepsObjects, adapted, send_control-agrees, send_resp_ok-agrees, send_resp_err-agrees,
  send_announced-send_payload, recv_control-agrees, handle_put-agrees, handle_get-agrees,
}

-- The loops of waitCredit differ only where the connection is closed and a credit is left.
wait_credit-agrees :
    (zc : ZcopyConn)
    → (zc.closed ≡ false) ⊎ (zc.credits ≤ℤ pos 0)
    → Conn.wait_credit zc ≡ Rdma.wait_credit zc
unfolding Conn.wait_credit Rdma.wait_credit
wait_credit-agrees zc (inl h) = ground arith
wait_credit-agrees zc (inr h) = ground arith

module _ {S : Type 0} where
  shut_down-stop : (t : Session S) → shut_down t ≡ stop t
  unfolding shut_down stop Rdma.close
  shut_down-stop t = refl

  or_return-after_send : (t : Session S) (r : ZcopyConn × Outcome) → or_return t r ≡ after_send t r
  unfolding or_return after_send
  or_return-after_send t (zc, done) = refl
  or_return-after_send t (zc, failed e) = shut_down-stop (record t { zc = zc })

  -- The same send, and the same reaction to its error.
  or_return-agrees :
      (t : Session S) (r r' : ZcopyConn × Outcome) → r ≡ r' → or_return t r ≡ after_send t r'
  or_return-agrees t r r' e = ap (or_return t) e ∙ or_return-after_send t r'

module _ {S : Type 0} (api : ObjectStore S) (keeps : KeepsObjects api) (md5 : Str → Str) (limit : ℤ)
    (delivers : ℕ → Bool) where
  abbrev rdma : RdmaHandlers.ObjectStore S
  rdma = adapted api keeps

  ignore_error-agrees :
      (r : ℕ) (text : Str) (t : Session S)
      → ignore_error api md5 limit delivers r text t
        ≡ ignoring t (Rdma.send_resp_err delivers r text t.zc)
  unfolding ignore_error ignoring
  ignore_error-agrees r text t =
      ap (λ (x : ZcopyConn × Outcome). record t { zc = x.0 })
        (send_resp_err-agrees delivers r text t.zc)

  control-agrees :
      (m : Message) (zc : ZcopyConn)
      → Conn.send_control_locked delivers m zc ≡ Rdma.send_control delivers m zc
  unfolding Conn.send_control_locked
  control-agrees m zc = send_control-agrees delivers m zc

  hello_granted :
      (msg : Message) (t : Session S)
      → let m : Message = record (blank op_hello_resp) {
        req_id = msg.req_id;
        credits = msg.credits;
      } in
        or_return t (Conn.send_control_locked delivers m (Conn.set_credits msg.credits t.zc))
        ≡ after_send t (Rdma.send_control delivers m (Rdma.set_credits msg.credits t.zc))
  unfolding Conn.set_credits Rdma.set_credits
  hello_granted msg t = or_return-agrees t _ _ (control-agrees _ _)

  serve_hello-agrees :
      (msg : Message) (t : Session S)
      → serve_hello api md5 limit delivers msg t ≡ on_hello rdma limit delivers msg t
  unfolding serve_hello on_hello ignoring RdmaHandlers.missing_req_id RdmaHandlers.invalid_credits
  serve_hello-agrees msg t =
      if_cong (msg.req_id == 0) (ignore_error-agrees 0 (codes "missing req_id") t) (
        if_cong (leb_ℤ msg.credits (pos 0))
          (ap (λ (x : ZcopyConn × Outcome). record t { zc = x.0 }) (control-agrees _ t.zc))
          (hello_granted msg t))

  serve_ensure_bucket-agrees :
      (msg : Message) (t : Session S)
      → serve_ensure_bucket api md5 limit delivers msg t
        ≡ on_ensure_bucket rdma limit delivers msg t
  unfolding serve_ensure_bucket on_ensure_bucket RdmaHandlers.missing_req_id
      RdmaHandlers.bucket_empty
  serve_ensure_bucket-agrees msg t =
      let bucket = trim_space msg.bucket in
      if_cong (msg.req_id == 0) (ignore_error-agrees 0 (codes "missing req_id") t) (
        if_cong (is_empty bucket)
          (ignore_error-agrees msg.req_id (codes "bucket must not be empty") t)
          (or_return-agrees (record t { store = api.create_bucket bucket t.store }) _ _
            (send_resp_ok-agrees delivers msg.req_id t.zc)))

  handle_get_async-agrees :
      (msg : Message) (t : Session S)
      → handle_get_async api md5 limit delivers msg t ≡ on_get rdma limit delivers msg t
  unfolding handle_get_async on_get RdmaHandlers.missing_req_id
  handle_get_async-agrees msg t =
      if_cong (msg.req_id == 0)
        (or_return-agrees t _ _ (send_resp_err-agrees delivers 0 (codes "missing req_id") t.zc))
        refl

  serve_other-agrees :
      (msg : Message) (t : Session S)
      → serve_other api md5 limit delivers msg t ≡ on_unknown rdma limit delivers msg t
  unfolding serve_other on_unknown RdmaHandlers.unsupported_op
  serve_other-agrees msg t = if_cong (msg.req_id == 0) refl (
      or_return-agrees t _ _
        (send_resp_err-agrees delivers msg.req_id (codes "unsupported op") t.zc))

  serve_put-agrees :
      (msg : Message) (t : Session S)
      → serve_put api md5 limit delivers msg t ≡ on_put rdma limit delivers msg t
  unfolding serve_put on_put
  serve_put-agrees msg t =
      let r = handle_put api md5 delivers limit msg t.zc t.store in
      or_return-after_send (record t { store = r.1 }) (r.0, r.2)
      ∙ ap (λ (x : ZcopyConn × S × Outcome). after_send (record t { store = x.1 }) (x.0, x.2))
          (handle_put-agrees api keeps md5 limit delivers msg t.zc t.store)

  serve_op-agrees :
      (op : OpKind) (msg : Message) (t : Session S)
      → serve_op api md5 limit delivers op msg t ≡ dispatch rdma limit delivers op msg t
  unfolding serve_op dispatch Rdma.add_credits
  serve_op-agrees hello_req msg t = serve_hello-agrees msg t
  serve_op-agrees acks msg t = refl
  serve_op-agrees ensure_bucket_req msg t = serve_ensure_bucket-agrees msg t
  serve_op-agrees put_req msg t = serve_put-agrees msg t
  serve_op-agrees get_req msg t = handle_get_async-agrees msg t
  serve_op-agrees hello_resp msg t = serve_other-agrees msg t
  serve_op-agrees resp_ok msg t = serve_other-agrees msg t
  serve_op-agrees resp_err msg t = serve_other-agrees msg t
  serve_op-agrees get_meta msg t = serve_other-agrees msg t
  serve_op-agrees unknown msg t = serve_other-agrees msg t

  serve_received-agrees :
      (m : Option Message) (t : Session S)
      → serve_received api md5 limit delivers m t ≡ serve_message rdma limit delivers m t
  unfolding serve_received serve_message
  serve_received-agrees none t = shut_down-stop t
  serve_received-agrees (some msg) t = serve_op-agrees (op_kind msg.op) msg t

  -- One round of serveConn does the same in both servers, over any store whose CreateBucket changes no
  -- object: the same responses, the same credits, the same state of the store, the same goroutines,
  -- and the loop ends for the same messages.
  pub serve_once-serve_round :
      (json : Json) (t : Session S)
      → serve_once api md5 limit delivers json t
        ≡ serve_round (adapted api keeps) limit delivers json t
  unfolding serve_once serve_round
  serve_once-serve_round json t =
      let r = Conn.recv_control json t.zc in
      serve_received-agrees r.1 (record t { zc = r.0 })
      ∙ ap
          (λ (x : ZcopyConn × Option Message).
            serve_message rdma limit delivers x.1 (record t { zc = x.0 }))
          (recv_control-agrees json t.zc)

  -- One step of a GET goroutine is the same in both servers as long as the connection is open, and also
  -- after that if no credit is left.
  pub advance-run_task :
      (task : GetTask) (zc : ZcopyConn) (store : S)
      → (zc.closed ≡ false) ⊎ (zc.credits ≤ℤ pos 0)
      → advance api md5 limit delivers task zc store
        ≡ run_task (adapted api keeps) limit delivers task zc store
  unfolding advance run_task
  advance-run_task (begun msg) zc store h =
      ap some (handle_get-agrees api keeps md5 limit delivers msg zc store)
  advance-run_task (holding r payload o) zc store h =
      ap (λ (x : ZcopyConn × Outcome). some (x.0, none))
        (send_announced-send_payload delivers r payload o zc)
  advance-run_task (waiting r payload o) zc store h = ground (arith, wait_credit-agrees zc h)
