-- ===== src/ZcopyServer/Rounds.antt =====
-- internal/s3rdmaserver/zcopy/service.go: what one message of the serving loop may do
use rdma_demo.Base.{
  ℕ, ◌≡◌, refl, ap, Bool, Option, none, some, [], ◌∷◌, ◌++◌, arith, inl, inr, ◌⊎◌, ◌==◌, if-elim,
  ◌∙◌,
}
use rdma_demo.Base.Int.{ℤ, pos, leb_ℤ}
use rdma_demo.Base.Text.{Str, is_empty, trim_space}
use rdma_demo.ZcopyProto.{
  Message, blank, op_hello_resp, Json, OpKind, hello_req, ensure_bucket_req, put_req, get_req, acks,
  op_kind,
}
use rdma_demo.ZcopyServer.Conn.{
  ZcopyConn, control, Outcome, done, failed, add_credits, set_credits, close, recv_control,
}
use rdma_demo.ZcopyServer.Handlers.{
  ObjectStore, begun, Session, missing_req_id, bucket_empty, unsupported_op,
}
use rdma_demo.ZcopyServer.Session.{
  stop, after_send, ignoring, on_hello, on_ensure_bucket, on_put, on_get, on_unknown, dispatch,
  serve_message, serve_round,
}
use rdma_demo.ZcopyServer.Frames.{
  Plain, send_control-Plain, send_resp_ok-Plain, send_resp_err-Plain, recv_control-sent,
  handle_put-Plain, handle_put-reads,
}

module _ {S : Type 0} (api : ObjectStore S) where
  -- What a message of the serving loop may do: send at most a control message, add buckets, begin a GET.
  pub record Quiet (t u : Session S) : Type 0 where
    pub sends : Plain t.zc u.zc
    pub reads :
        (bucket key : Str) → api.get_object bucket key u.store ≡ api.get_object bucket key t.store
    pub begins : (u.tasks ≡ t.tasks) ⊎ ((m : Message) × (u.tasks ≡ t.tasks ++ begun m ∷ []))

  after_send-Quiet :
      (t : Session S) (store : S) (r : ZcopyConn × Outcome)
      → Plain t.zc r.0
      → ((bucket key : Str) → api.get_object bucket key store ≡ api.get_object bucket key t.store)
      → Quiet t (after_send (record t { store = store }) r)
  unfolding after_send stop close
  after_send-Quiet t store (zc, done) p same = record { sends = p; reads = same; begins = inl refl }
  after_send-Quiet t store (zc, failed e) p same = record {
    sends = p;
    reads = same;
    begins = inl refl;
  }

  ignoring-Quiet :
      (t : Session S) (r : ZcopyConn × Outcome) → Plain t.zc r.0 → Quiet t (ignoring t r)
  unfolding ignoring
  ignoring-Quiet t (zc, o) p = record { sends = p; reads = λ bucket key. refl; begins = inl refl }

  module _ (limit : ℤ) (delivers : ℕ → Bool) (msg : Message) (t : Session S) where
    on_hello-Quiet : Quiet t (on_hello api limit delivers msg t)
    unfolding on_hello set_credits
    on_hello-Quiet =
        if-elim (Quiet t) (msg.req_id == 0)
          (λ _. ignoring-Quiet t _ (send_resp_err-Plain delivers 0 missing_req_id t.zc))
          λ _.
            if-elim (Quiet t) (leb_ℤ msg.credits (pos 0))
              (λ _. ignoring-Quiet t _ (send_control-Plain delivers _ t.zc))
              (λ _.
                after_send-Quiet t t.store _
                  (send_control-Plain delivers
                    (record (blank op_hello_resp) { req_id = msg.req_id; credits = msg.credits })
                    (set_credits msg.credits t.zc))
                  (λ bucket key. refl))

    on_ensure_bucket-Quiet : Quiet t (on_ensure_bucket api limit delivers msg t)
    unfolding on_ensure_bucket
    on_ensure_bucket-Quiet =
        if-elim (Quiet t) (msg.req_id == 0)
          (λ _. ignoring-Quiet t _ (send_resp_err-Plain delivers 0 missing_req_id t.zc))
          λ _.
            if-elim (Quiet t) (is_empty (trim_space msg.bucket))
              (λ _. ignoring-Quiet t _ (send_resp_err-Plain delivers msg.req_id bucket_empty t.zc))
              (λ _.
                after_send-Quiet t _ _ (send_resp_ok-Plain delivers msg.req_id t.zc)
                  (api.get_object-create_bucket (trim_space msg.bucket) t.store))

    on_put-Quiet : Quiet t (on_put api limit delivers msg t)
    unfolding on_put
    on_put-Quiet =
        after_send-Quiet t _ _ (handle_put-Plain api delivers limit msg t.zc t.store)
          (handle_put-reads api delivers limit msg t.zc t.store)

    on_get-Quiet : Quiet t (on_get api limit delivers msg t)
    unfolding on_get
    on_get-Quiet =
        if-elim (Quiet t) (msg.req_id == 0)
          (λ _.
            after_send-Quiet t t.store _ (send_resp_err-Plain delivers 0 missing_req_id t.zc)
              (λ bucket key. refl))
          (λ _. record { sends = inl refl; reads = λ bucket key. refl; begins = inr (msg, refl) })

    on_unknown-Quiet : Quiet t (on_unknown api limit delivers msg t)
    unfolding on_unknown
    on_unknown-Quiet =
        if-elim (Quiet t) (msg.req_id == 0)
          (λ _. record { sends = inl refl; reads = λ bucket key. refl; begins = inl refl })
          (λ _.
            after_send-Quiet t t.store _
              (send_resp_err-Plain delivers msg.req_id unsupported_op t.zc) (λ bucket key. refl))

    dispatch-Quiet : (k : OpKind) → Quiet t (dispatch api limit delivers k msg t)
    unfolding dispatch add_credits
    dispatch-Quiet hello_req = on_hello-Quiet
    dispatch-Quiet acks = record {
      sends = inl (ground arith);
      reads = λ bucket key. refl;
      begins = inl refl;
    }
    dispatch-Quiet ensure_bucket_req = on_ensure_bucket-Quiet
    dispatch-Quiet put_req = on_put-Quiet
    dispatch-Quiet get_req = on_get-Quiet
    dispatch-Quiet _ = on_unknown-Quiet

  serve_message-Quiet :
      (limit : ℤ) (delivers : ℕ → Bool) (msg : Option Message) (t : Session S)
      → Quiet t (serve_message api limit delivers msg t)
  unfolding serve_message stop close
  serve_message-Quiet limit delivers none t = record {
    sends = inl refl;
    reads = λ bucket key. refl;
    begins = inl refl;
  }
  serve_message-Quiet limit delivers (some msg) t =
      dispatch-Quiet limit delivers msg t (op_kind msg.op)

  -- A round sends at most one control message, adds buckets and begins GETs: it changes no object.
  pub serve_round-Quiet :
      (limit : ℤ) (delivers : ℕ → Bool) (json : Json) (t : Session S)
      → Quiet t (serve_round api limit delivers json t)
  unfolding serve_round
  serve_round-Quiet limit delivers json t =
      let (zc, msg) = recv_control json t.zc in
      let q = serve_message-Quiet limit delivers msg (record t { zc = zc }) in
      record {
        sends = elim q.sends [
          | inl same ↦ inl (same ∙ recv_control-sent json t.zc)
          | inr (m, more) ↦
              inr (m, more ∙ ap (λ fs. fs ++ control m ∷ []) (recv_control-sent json t.zc))
        ];
        reads = q.reads;
        begins = q.begins;
      }
