-- ===== src/ZcopyServer/Answers.antt =====
-- internal/s3rdmaserver/zcopy/service.go: how a PUT is answered, and what it leaves in the channel
use rdma_demo.Base.{
  ℕ, suc, ◌≡◌, refl, ap, Bool, false, none, some, List, [], ◌∷◌, ◌++◌, arith, inl, inr, Bool-cases,
  ◌∙◌, drop, if◌then◌else◌, ◌||◌,
}
use rdma_demo.Base.Int.{ℤ, pos, leb_ℤ, ltb_ℤ}
use rdma_demo.Base.Text.{Str}
use rdma_demo.ZcopyProto.{
  Message, blank, op_resp_ok, op_resp_err, Json, decode, put_req, op_kind, ok,
}
use rdma_demo.ZcopyServer.Conn.{
  control, ZcopyConn, Borrowed, Outcome, done, failed, send_frame, send_control, send_resp_ok,
  send_resp_err, receive_borrowed, recv_payload_at, recv_message, recv_control, close,
}
use rdma_demo.ZcopyServer.Handlers.{
  ObjectStore, Session, PutCheck, put_refused, put_accepted, finish_put, check_put, act_put,
  handle_put,
}
use rdma_demo.ZcopyServer.Session.{stop, after_send, on_put, dispatch, serve_message, serve_round}
use rdma_demo.ZcopyServer.Frames.{recv_payload_at-sent}

-- The operation of the answer to a PUT.
abbrev pub answer_op : PutCheck → Str
answer_op (put_refused r text) = op_resp_err
answer_op (put_accepted bucket size o) = op_resp_ok

-- How many messages a PUT takes from the channel.
abbrev pub taken : PutCheck → ℕ
taken (put_refused r text) = 0
taken (put_accepted bucket size o) = if leb_ℤ size (pos 0) || ltb_ℤ o (pos 0) then 0 else 1

check_put-refused :
    (limit : ℤ) (msg : Message) (r : ℕ) (text : Str)
    → check_put limit msg ≡ put_refused r text
    → r ≡ msg.req_id
unfolding check_put
check_put-refused limit msg r text h = ground arith

-- The last frame of `zc'` is the answer with this operation to this request, the only new one.
abbrev pub Answered : ZcopyConn → ZcopyConn → ℕ → Str → Type 0
Answered zc zc' req_id op =
    (m : Message) × (zc'.sent ≡ zc.sent ++ control m ∷ []) × (m.req_id ≡ req_id) × (m.op ≡ op)

module _ {S : Type 0} (api : ObjectStore S) (delivers : ℕ → Bool) where
  send_control-Answered :
      (m : Message) (zc : ZcopyConn)
      → (send_control delivers m zc).1 ≡ done
      → Answered zc (send_control delivers m zc).0 m.req_id m.op
  unfolding send_control send_frame
  send_control-Answered m zc h = elim (Bool-cases (delivers zc.attempts)) [
    | inl good ↦ (m, ground arith, refl, refl)
    | inr bad ↦ absurd (ground arith)
  ]

  finish_put-Answered :
      (r : ℕ) (bucket : Str) (store : S) (zc : ZcopyConn) (p : ZcopyConn × Outcome)
      → p.0.sent ≡ zc.sent
      → (finish_put api delivers r bucket store p).2 ≡ done
      → Answered zc (finish_put api delivers r bucket store p).0 r op_resp_ok
  unfolding finish_put send_resp_ok
  finish_put-Answered r bucket store zc (zc', failed e) same h = absurd (ground arith)
  finish_put-Answered r bucket store zc (zc', done) same h =
      let (m, more, id, op) =
        send_control-Answered (record (blank op_resp_ok) { req_id = r }) zc' h in
      (m, more ∙ ap (λ fs. fs ++ control m ∷ []) same, id, op)

  act_put-Answered :
      (msg : Message) (c : PutCheck) (zc : ZcopyConn) (store : S)
      → ((r : ℕ) (text : Str) → c ≡ put_refused r text → r ≡ msg.req_id)
      → (act_put api delivers msg.req_id c zc store).2 ≡ done
      → Answered zc (act_put api delivers msg.req_id c zc store).0 msg.req_id (answer_op c)
  unfolding act_put send_resp_err
  act_put-Answered msg (put_refused r text) zc store same h =
      let (m, more, id, op) =
        send_control-Answered (record (blank op_resp_err) { req_id = r; error = text }) zc h in
      (m, more, id ∙ same r text refl, op)
  act_put-Answered msg (put_accepted bucket size o) zc store same h =
      finish_put-Answered msg.req_id bucket store zc (recv_payload_at size o zc)
        (recv_payload_at-sent size o zc) h

  -- A PUT that is handled without an error is answered by exactly one message, with the request's id:
  -- resp_ok if its checks accept it, resp_err if they refuse it.
  pub handle_put-Answered :
      (limit : ℤ) (msg : Message) (zc : ZcopyConn) (store : S)
      → (handle_put api delivers limit msg zc store).2 ≡ done
      → Answered zc
          (handle_put api delivers limit msg zc store).0
          msg.req_id
          (answer_op (check_put limit msg))
  unfolding handle_put
  handle_put-Answered limit msg zc store h =
      act_put-Answered msg (check_put limit msg) zc store (check_put-refused limit msg) h

  send_control-inbox :
      (m : Message) (zc : ZcopyConn) → (send_control delivers m zc).0.inbox ≡ zc.inbox
  unfolding send_control send_frame
  send_control-inbox m zc = ground arith

  finish_put-inbox :
      (r : ℕ) (bucket : Str) (store : S) (p : ZcopyConn × Outcome)
      → (finish_put api delivers r bucket store p).0.inbox ≡ p.0.inbox
  unfolding finish_put send_resp_ok
  finish_put-inbox r bucket store (zc, failed e) = refl
  finish_put-inbox r bucket store (zc, done) = send_control-inbox _ zc

  receive_borrowed-inbox :
      (size o : ℤ) (ms : List Borrowed) (zc : ZcopyConn)
      → zc.inbox ≡ ms
      → (receive_borrowed size o ms zc).0.inbox ≡ drop 1 ms
  unfolding receive_borrowed
  receive_borrowed-inbox size o [] zc h = h
  receive_borrowed-inbox size o (m ∷ ms) zc h = refl

  recv_payload_at-inbox :
      (bucket : Str) (size o : ℤ) (zc : ZcopyConn)
      → (recv_payload_at size o zc).0.inbox ≡ drop (taken (put_accepted bucket size o)) zc.inbox
  unfolding recv_payload_at
  recv_payload_at-inbox bucket size o zc =
      ground (arith, receive_borrowed-inbox size o zc.inbox zc refl)

  act_put-inbox :
      (r : ℕ) (c : PutCheck) (zc : ZcopyConn) (store : S)
      → (act_put api delivers r c zc store).0.inbox ≡ drop (taken c) zc.inbox
  unfolding act_put send_resp_err
  act_put-inbox r (put_refused q text) zc store = send_control-inbox _ zc
  act_put-inbox r (put_accepted bucket size o) zc store =
      finish_put-inbox r bucket store (recv_payload_at size o zc)
      ∙ recv_payload_at-inbox bucket size o zc

  -- A PUT takes its payload from the channel only if its checks accept it and its size is positive and
  -- its offset is not negative; otherwise whatever the client sent behind the request stays in the
  -- channel, for the next round to take.
  pub handle_put-inbox :
      (limit : ℤ) (msg : Message) (zc : ZcopyConn) (store : S)
      → (handle_put api delivers limit msg zc store).0.inbox
        ≡ drop (taken (check_put limit msg)) zc.inbox
  unfolding handle_put
  handle_put-inbox limit msg zc store = act_put-inbox msg.req_id (check_put limit msg) zc store

module _ {S : Type 0} (api : ObjectStore S) (limit : ℤ) (delivers : ℕ → Bool) (json : Json) where
  recv_message_lem :
      (zc : ZcopyConn) (m : Borrowed) (ms : List Borrowed)
      → zc.inbox ≡ m ∷ ms
      → recv_message zc ≡ (record zc { inbox = ms; released = suc zc.released }, some m.payload)
  unfolding recv_message
  recv_message_lem zc m ms h = rw h refl

  recv_control_decoded :
      (zc : ZcopyConn) (m : Borrowed) (ms : List Borrowed) (msg : Message)
      → zc.inbox ≡ m ∷ ms
      → decode json m.payload ≡ ok msg
      → recv_control json zc ≡ (record zc { inbox = ms; released = suc zc.released }, some msg)
  unfolding recv_control
  recv_control_decoded zc m ms msg h decoded =
      rw (recv_message_lem zc m ms h, recv_control)
        (rw decoded (ap (λ p. (p.0, some msg)) (recv_message_lem zc m ms h)))

  recv_control_undecoded :
      (zc : ZcopyConn) (m : Borrowed) (ms : List Borrowed)
      → zc.inbox ≡ m ∷ ms
      → json.unmarshal m.payload ≡ none
      → recv_control json zc ≡ (record zc { inbox = ms; released = suc zc.released }, none)
  unfolding recv_control decode
  recv_control_undecoded zc m ms h bad =
      rw (recv_message_lem zc m ms h, recv_control)
        (rw (bad, decode) (ap (λ p. (p.0, none)) (recv_message_lem zc m ms h)))

  -- A round whose next message cannot be decoded ends the loop.
  serve_round_undecoded :
      (t : Session S) (m : Borrowed) (ms : List Borrowed)
      → t.zc.inbox ≡ m ∷ ms
      → json.unmarshal m.payload ≡ none
      → (serve_round api limit delivers json t).running ≡ false
  unfolding serve_round serve_message stop
  serve_round_undecoded t m ms h bad = rw (recv_control_undecoded t.zc m ms h bad, serve_round) refl

  after_send-inbox :
      (t : Session S) (r : ZcopyConn × Outcome) → (after_send t r).zc.inbox ≡ r.0.inbox
  unfolding after_send stop close
  after_send-inbox t (zc, done) = refl
  after_send-inbox t (zc, failed e) = refl

  serve_round_refused_put :
      (t : Session S) (m : Borrowed) (ms : List Borrowed) (msg : Message) (r : ℕ) (text : Str)
      → t.zc.inbox ≡ m ∷ ms
      → decode json m.payload ≡ ok msg
      → op_kind msg.op ≡ put_req
      → check_put limit msg ≡ put_refused r text
      → (serve_round api limit delivers json t).zc.inbox ≡ ms
  unfolding serve_round serve_message dispatch on_put
  serve_round_refused_put t m ms msg r text h decoded put refuses =
      rw (recv_control_decoded t.zc m ms msg h decoded, serve_round, put)
        (after_send-inbox _ _
          ∙ handle_put-inbox api delivers limit msg _ t.store
          ∙ ap (λ c. drop (taken c) ms) refuses)

  -- If a PUT request is next in the channel, its checks refuse it, and what follows it is not a
  -- control message, as the payload of the PUT, then two rounds later the loop has ended.
  pub refused_put-stops :
      (t : Session S) (m payload : Borrowed) (ms : List Borrowed) (msg : Message) (r : ℕ)
      (text : Str)
      → t.zc.inbox ≡ m ∷ payload ∷ ms
      → decode json m.payload ≡ ok msg
      → op_kind msg.op ≡ put_req
      → check_put limit msg ≡ put_refused r text
      → json.unmarshal payload.payload ≡ none
      → (serve_round api limit delivers json (serve_round api limit delivers json t)).running
        ≡ false
  refused_put-stops t m payload ms msg r text h decoded put refuses bad =
      serve_round_undecoded (serve_round api limit delivers json t) payload ms
        (serve_round_refused_put t m (payload ∷ ms) msg r text h decoded put refuses) bad
