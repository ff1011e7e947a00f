-- ===== src/ZcopyServer/Session.antt =====
-- internal/s3rdmaserver/zcopy/service.go: serveConn, as what one message and one goroutine do to a
-- connection
use rdma_demo.Base.{ℕ, Bool, false, Option, none, some, [], ◌∷◌, ◌++◌, ◌==◌, if◌then◌else◌}
use rdma_demo.Base.Int.{ℤ, pos, leb_ℤ}
use rdma_demo.Base.Text.{is_empty, trim_space}
use rdma_demo.ZcopyProto.{
  Message, blank, op_hello_resp, OpKind, hello_req, ensure_bucket_req, put_req, get_req, acks,
  op_kind, Json,
}
use rdma_demo.ZcopyServer.Conn.{
  ZcopyConn, Outcome, done, failed, blocks, granted, refused, close, add_credits, set_credits,
  wait_credit, recv_control, send_control, send_resp_ok, send_resp_err, send_payload,
}
use rdma_demo.ZcopyServer.Handlers.{
  ObjectStore, GetTask, begun, waiting, holding, Session, missing_req_id, invalid_credits,
  bucket_empty, unsupported_op, handle_put, handle_get,
}

module _ {S : Type 0} where
  -- The deferred function of serveConn: the connection is closed for waitCredit, and the loop ends.
  unfoldable pub stop : Session S → Session S
  stop t = record t { zc = close t.zc; running = false }

  -- `if err != nil { return }`
  unfoldable pub after_send : Session S → ZcopyConn × Outcome → Session S
  after_send t (zc, done) = record t { zc = zc }
  after_send t (zc, failed e) = stop (record t { zc = zc })

  -- `_ = send…; continue`
  unfoldable pub ignoring : Session S → ZcopyConn × Outcome → Session S
  ignoring t (zc, o) = record t { zc = zc }

module _ {S : Type 0} (api : ObjectStore S) (max_object_size : ℤ) (delivers : ℕ → Bool) where
  unfoldable pub on_hello : Message → Session S → Session S
  on_hello msg t =
      if msg.req_id == 0
      then ignoring t (send_resp_err delivers 0 missing_req_id t.zc)
      else if leb_ℤ msg.credits (pos 0)
      then ignoring t (
          send_control delivers
            (record (blank op_hello_resp) { req_id = msg.req_id; error = invalid_credits }) t.zc)
      else after_send t (
          send_control delivers
            (record (blank op_hello_resp) { req_id = msg.req_id; credits = msg.credits })
            (set_credits msg.credits t.zc))

  unfoldable pub on_ensure_bucket : Message → Session S → Session S
  on_ensure_bucket msg t =
      let bucket = trim_space msg.bucket in
      if msg.req_id == 0
      then ignoring t (send_resp_err delivers 0 missing_req_id t.zc)
      else if is_empty bucket
      then ignoring t (send_resp_err delivers msg.req_id bucket_empty t.zc)
      else after_send (record t { store = api.create_bucket bucket t.store })
          (send_resp_ok delivers msg.req_id t.zc)

  unfoldable pub on_put : Message → Session S → Session S
  on_put msg t =
      let (zc, store, o) = handle_put api delivers max_object_size msg t.zc t.store in
      after_send (record t { store = store }) (zc, o)

  -- handleGetAsync
  unfoldable pub on_get : Message → Session S → Session S
  on_get msg t =
      if msg.req_id == 0
      then after_send t (send_resp_err delivers 0 missing_req_id t.zc)
      else record t { tasks = t.tasks ++ begun msg ∷ [] }

  unfoldable pub on_unknown : Message → Session S → Session S
  on_unknown msg t =
      if msg.req_id == 0
      then t
      else after_send t (send_resp_err delivers msg.req_id unsupported_op t.zc)

  -- the switch of serveConn
  unfoldable pub dispatch : OpKind → Message → Session S → Session S
  dispatch hello_req msg t = on_hello msg t
  dispatch acks msg t = record t { zc = add_credits msg.ack t.zc }
  dispatch ensure_bucket_req msg t = on_ensure_bucket msg t
  dispatch put_req msg t = on_put msg t
  dispatch get_req msg t = on_get msg t
  dispatch _ msg t = on_unknown msg t

  -- the rest of a round, with what recvControl returned
  unfoldable pub serve_message : Option Message → Session S → Session S
  serve_message none t = stop t
  serve_message (some msg) t = dispatch (op_kind msg.op) msg t

  -- one round of the loop
  unfoldable pub serve_round : Json → Session S → Session S
  unfolding serve_message
  serve_round json t =
      let (zc, msg) = recv_control json t.zc in serve_message msg (record t { zc = zc })

  -- What a goroutine does next. `none` means that it waits.
  unfoldable pub run_task : GetTask → ZcopyConn → S → Option (ZcopyConn × Option GetTask)
  run_task (begun msg) zc store = some (handle_get api delivers msg zc store)
  run_task (waiting req_id payload data_offset) zc store = elim (wait_credit zc) [
    | blocks ↦ none
    | granted zc' ↦ some (zc', some (holding req_id payload data_offset))
    | refused e ↦ some (zc, none)
  ]
  run_task (holding req_id payload data_offset) zc store =
      some ((send_payload delivers req_id payload data_offset zc).0, none)
