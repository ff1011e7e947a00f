-- ===== src/InmemZcopy/Session.antt =====
-- internal/inmems3/zcopy/service.go: serveConn, as what one message and one goroutine do to a connection
use rdma_demo.Base.{ℕ, Bool, false, Option, none, some, [], ◌∷◌, ◌++◌, ◌==◌, if◌then◌else◌}
use rdma_demo.Base.Int.{ℤ, pos, leb_ℤ}
use rdma_demo.Base.Text.{Str, codes, is_empty, trim_space}
use rdma_demo.ZcopyProto.{
  Message, blank, op_hello_resp, OpKind, hello_req, ensure_bucket_req, put_req, get_req, acks,
  op_kind, Json,
}
use rdma_demo.ZcopyServer.Conn.{Outcome, done, failed, blocks, granted, refused}
use rdma_demo.ZcopyServer.Handlers.{GetTask, begun, waiting, holding, Session}
use rdma_demo.InmemZcopy.Conn.{
  ZcopyConn, close, add_credits, set_credits, wait_credit, recv_control, send_control_locked,
  send_resp_ok, send_resp_err, send_announced,
}
use rdma_demo.InmemZcopy.Handlers.{ObjectStore, handle_put, handle_get}

module _ {S : Type 0} where
  -- The deferred function of serveConn, up to wg.Wait.
  unfoldable pub shut_down : Session S → Session S
  unfolding close
  shut_down t = record t { zc = close t.zc; running = false }

  -- `if err := …; err != nil { return }`
  unfoldable pub or_return : Session S → ZcopyConn × Outcome → Session S
  unfolding shut_down
  or_return t (zc, done) = record t { zc = zc }
  or_return t (zc, failed e) = shut_down (record t { zc = zc })

module _ {S : Type 0} (api : ObjectStore S) (md5 : Str → Str) (max_object_size : ℤ)
    (delivers : ℕ → Bool) where
  -- `_ = zc.sendRespErr(…)`
  unfoldable pub ignore_error : ℕ → Str → Session S → Session S
  ignore_error req_id text t = record t { zc = (send_resp_err delivers req_id text t.zc).0 }

  unfoldable pub serve_hello : Message → Session S → Session S
  unfolding ignore_error or_return set_credits
  serve_hello msg t =
      if msg.req_id == 0
      then ignore_error 0 (codes "missing req_id") t
      else if leb_ℤ msg.credits (pos 0)
      then record t {
        zc =
            (send_control_locked delivers
              (record (blank op_hello_resp) {
                req_id = msg.req_id;
                error = codes "invalid credits";
              })
              t.zc).0;
      }
      else or_return t (
          send_control_locked delivers
            (record (blank op_hello_resp) { req_id = msg.req_id; credits = msg.credits })
            (set_credits msg.credits t.zc))

  unfoldable pub serve_ensure_bucket : Message → Session S → Session S
  unfolding ignore_error or_return
  serve_ensure_bucket msg t =
      let bucket = trim_space msg.bucket in
      if msg.req_id == 0
      then ignore_error 0 (codes "missing req_id") t
      else if is_empty bucket
      then ignore_error msg.req_id (codes "bucket must not be empty") t
      else or_return (record t { store = api.create_bucket bucket t.store })
          (send_resp_ok delivers msg.req_id t.zc)

  unfoldable pub serve_put : Message → Session S → Session S
  unfolding or_return
  serve_put msg t =
      let (zc, store, o) = handle_put api md5 delivers max_object_size msg t.zc t.store in
      or_return (record t { store = store }) (zc, o)

  unfoldable pub handle_get_async : Message → Session S → Session S
  unfolding or_return
  handle_get_async msg t =
      if msg.req_id == 0
      then or_return t (send_resp_err delivers 0 (codes "missing req_id") t.zc)
      else record t { tasks = t.tasks ++ begun msg ∷ [] }

  unfoldable pub serve_other : Message → Session S → Session S
  unfolding or_return
  serve_other msg t =
      if msg.req_id == 0
      then t
      else or_return t (send_resp_err delivers msg.req_id (codes "unsupported op") t.zc)

  -- the switch of serveConn
  unfoldable pub serve_op : OpKind → Message → Session S → Session S
  unfolding add_credits
  serve_op hello_req msg t = serve_hello msg t
  serve_op acks msg t = record t { zc = add_credits msg.ack t.zc }
  serve_op ensure_bucket_req msg t = serve_ensure_bucket msg t
  serve_op put_req msg t = serve_put msg t
  serve_op get_req msg t = handle_get_async msg t
  serve_op _ msg t = serve_other msg t

  -- the rest of a round, with what recvControl returned
  unfoldable pub serve_received : Option Message → Session S → Session S
  unfolding shut_down
  serve_received none t = shut_down t
  serve_received (some msg) t = serve_op (op_kind msg.op) msg t

  -- one round of the loop
  unfoldable pub serve_once : Json → Session S → Session S
  serve_once json t =
      let (zc, msg) = recv_control json t.zc in serve_received msg (record t { zc = zc })

  -- What a goroutine does next. `none` means that it waits.
  unfoldable pub advance : GetTask → ZcopyConn → S → Option (ZcopyConn × Option GetTask)
  advance (begun msg) zc store = some (handle_get api md5 delivers msg zc store)
  advance (waiting req_id payload data_offset) zc store = elim (wait_credit zc) [
    | blocks ↦ none
    | granted zc' ↦ some (zc', some (holding req_id payload data_offset))
    | refused e ↦ some (zc, none)
  ]
  advance (holding req_id payload data_offset) zc store =
      some ((send_announced delivers req_id payload data_offset zc).0, none)
