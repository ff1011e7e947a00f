-- ===== src/ZcopyServer/Flow.antt =====
-- internal/s3rdmaserver/zcopy/service.go: what the handlers do to the credits and to the payloads
use rdma_demo.Base.{
  ℕ, suc, ◌≤◌, ◌≡◌, refl, Bool, List, [], ◌∷◌, ◌++◌, arith, ◌∙◌, inl, inr, Bool-cases, ap,
}
use rdma_demo.Base.Int.{ℤ, pos, ltb_ℤ}
use rdma_demo.Base.Text.{Str}
use rdma_demo.ZcopyProto.{Message, Json}
use rdma_demo.ZcopyServer.Conn.{
  Frame, control, payload_at, ZcopyConn, Outcome, done, failed, send_frame, send_control,
  send_resp_ok, send_resp_err, send_after_meta, meta_message, send_payload, recv_message,
  recv_control, receive_borrowed, recv_payload_at,
}
use rdma_demo.ZcopyServer.Handlers.{
  ObjectStore, PutCheck, put_refused, put_accepted, GetCheck, get_refused, get_offered, finish_put,
  check_put, check_get, act_put, act_get, handle_put, handle_get,
}

-- How many of the frames are payloads.
abbrev pub payloads : List Frame → ℕ
payloads [] = 0
payloads (control m ∷ fs) = payloads fs
payloads (payload_at p o ∷ fs) = suc (payloads fs)

pub payloads-control :
    (fs : List Frame) (m : Message) → payloads (fs ++ control m ∷ []) ≡ payloads fs
payloads-control [] m = refl
payloads-control (control n ∷ fs) m = payloads-control fs m
payloads-control (payload_at p o ∷ fs) m = ap suc (payloads-control fs m)

pub payloads-payload_at :
    (fs : List Frame) (p : Str) (o : ℤ) → payloads (fs ++ payload_at p o ∷ []) ≡ suc (payloads fs)
payloads-payload_at [] p o = refl
payloads-payload_at (control n ∷ fs) p o = payloads-payload_at fs p o
payloads-payload_at (payload_at q r ∷ fs) p o = ap suc (payloads-payload_at fs p o)

-- The credits and the number of payloads sent are as before.
pub record SameFlow (zc zc' : ZcopyConn) : Type 0 where
  pub credits : zc'.credits ≡ zc.credits
  pub payloads_sent : payloads zc'.sent ≡ payloads zc.sent

module _ (delivers : ℕ → Bool) where
  pub send_control-SameFlow :
      (m : Message) (zc : ZcopyConn) → SameFlow zc (send_control delivers m zc).0
  unfolding send_control
  send_control-SameFlow m zc = ground (arith, payloads-control zc.sent m)

  pub send_resp_ok-SameFlow : (r : ℕ) (zc : ZcopyConn) → SameFlow zc (send_resp_ok delivers r zc).0
  unfolding send_resp_ok
  send_resp_ok-SameFlow r zc = send_control-SameFlow _ zc

  pub send_resp_err-SameFlow :
      (r : ℕ) (text : Str) (zc : ZcopyConn) → SameFlow zc (send_resp_err delivers r text zc).0
  unfolding send_resp_err
  send_resp_err-SameFlow r text zc = send_control-SameFlow _ zc

  send_after_meta-flow :
      (p : Str) (o : ℤ) (zc : ZcopyConn) (r : ZcopyConn × Outcome)
      → SameFlow zc r.0
      → ((send_after_meta delivers p o r).0.credits ≡ zc.credits)
        × (payloads (send_after_meta delivers p o r).0.sent ≤ suc (payloads zc.sent))
  unfolding send_after_meta send_frame
  send_after_meta-flow p o zc (zc', failed e) h = ground arith
  send_after_meta-flow p o zc (zc', done) h = ground (arith, payloads-payload_at zc'.sent p o)

  -- One payload at most.
  pub send_payload-flow :
      (r : ℕ) (p : Str) (o : ℤ) (zc : ZcopyConn)
      → ((send_payload delivers r p o zc).0.credits ≡ zc.credits)
        × (payloads (send_payload delivers r p o zc).0.sent ≤ suc (payloads zc.sent))
  unfolding send_payload
  send_payload-flow r p o zc = elim (Bool-cases (ltb_ℤ o (pos 0))) [
    | inl bad ↦ rw (bad, send_payload) (refl, omega arith)
    | inr good ↦
        rw (good, send_payload)
          (send_after_meta-flow p o zc (send_control delivers (meta_message r p o) zc)
            (send_control-SameFlow (meta_message r p o) zc))
  ]

pub SameFlow-refl : (zc : ZcopyConn) → SameFlow zc zc
SameFlow-refl zc = record { credits = refl; payloads_sent = refl }

pub SameFlow-trans : {a b c : ZcopyConn} → SameFlow a b → SameFlow b c → SameFlow a c
SameFlow-trans p q = record {
  credits = q.credits ∙ p.credits;
  payloads_sent = q.payloads_sent ∙ p.payloads_sent;
}

pub recv_payload_at-SameFlow :
    (size o : ℤ) (zc : ZcopyConn) → SameFlow zc (recv_payload_at size o zc).0
unfolding recv_payload_at receive_borrowed
recv_payload_at-SameFlow size o zc = ground arith

recv_message-SameFlow : (zc : ZcopyConn) → SameFlow zc (recv_message zc).0
unfolding recv_message
recv_message-SameFlow zc = ground arith

pub recv_control-SameFlow : (json : Json) (zc : ZcopyConn) → SameFlow zc (recv_control json zc).0
unfolding recv_control
recv_control-SameFlow json zc = ground (arith, recv_message-SameFlow zc)

module _ {S : Type 0} (api : ObjectStore S) (delivers : ℕ → Bool) where
  finish_put-SameFlow :
      (r : ℕ) (bucket : Str) (store : S) (zc : ZcopyConn) (p : ZcopyConn × Outcome)
      → SameFlow zc p.0
      → SameFlow zc (finish_put api delivers r bucket store p).0
  unfolding finish_put
  finish_put-SameFlow r bucket store zc (zc', failed e) h = h
  finish_put-SameFlow r bucket store zc (zc', done) h =
      SameFlow-trans h (send_resp_ok-SameFlow delivers r zc')

  act_put-SameFlow :
      (r : ℕ) (c : PutCheck) (zc : ZcopyConn) (store : S)
      → SameFlow zc (act_put api delivers r c zc store).0
  unfolding act_put
  act_put-SameFlow r (put_refused q text) zc store = send_resp_err-SameFlow delivers q text zc
  act_put-SameFlow r (put_accepted bucket size o) zc store =
      finish_put-SameFlow r bucket store zc (recv_payload_at size o zc)
        (recv_payload_at-SameFlow size o zc)

  -- A PUT uses no credit and sends no payload.
  pub handle_put-SameFlow :
      (limit : ℤ) (msg : Message) (zc : ZcopyConn) (store : S)
      → SameFlow zc (handle_put api delivers limit msg zc store).0
  unfolding handle_put
  handle_put-SameFlow limit msg zc store =
      act_put-SameFlow msg.req_id (check_put limit msg) zc store

  act_get-SameFlow :
      (r : ℕ) (c : GetCheck) (zc : ZcopyConn) → SameFlow zc (act_get api delivers r c zc).0
  unfolding act_get
  act_get-SameFlow r (get_refused text) zc = send_resp_err-SameFlow delivers r text zc
  act_get-SameFlow r (get_offered p o) zc = SameFlow-refl zc

  pub handle_get-SameFlow :
      (msg : Message) (zc : ZcopyConn) (store : S)
      → SameFlow zc (handle_get api delivers msg zc store).0
  unfolding handle_get
  handle_get-SameFlow msg zc store = act_get-SameFlow msg.req_id (check_get api msg store) zc
