-- ===== src/ZcopyServer/Credits.antt =====
-- internal/s3rdmaserver/zcopy/service.go: flow control over any interleaving of the serving loop,
-- the GET goroutines and the peer
use rdma_demo.Base.{
  ℕ, suc, ◌+◌, ◌≤◌, ◌<◌, ◌≡◌, refl, Bool, false, Option, none, some, List, [], ◌∷◌, ◌++◌, arith,
  ◌==◌, if◌then◌else◌, if-elim,
}
use rdma_demo.Base.Int.{ℤ, pos, negsuc, pos_part, neg_part, half_range, leb_ℤ, add64-pos}
use rdma_demo.Base.Text.{trim_space, is_empty}
use rdma_demo.ZcopyProto.{Message, blank, op_hello_resp, OpKind, hello_req, acks, op_kind}
use rdma_demo.ZcopyServer.Conn.{ZcopyConn, Outcome, done, failed, close, add_credits, set_credits}
use rdma_demo.ZcopyServer.Handlers.{
  ObjectStore, GetTask, begun, waiting, holding, Session, missing_req_id, bucket_empty,
  unsupported_op,
}
use rdma_demo.ZcopyServer.Session.{
  stop, after_send, ignoring, on_hello, on_ensure_bucket, on_put, on_get, on_unknown,
}
use rdma_demo.ZcopyServer.Flow.{
  payloads, SameFlow, send_control-SameFlow, send_resp_ok-SameFlow, send_resp_err-SameFlow,
  handle_put-SameFlow,
}

-- The goroutines that took a credit and have not yet sent.
abbrev pub holders : List GetTask → ℕ
holders [] = 0
holders (begun m ∷ ts) = holders ts
holders (waiting r p o ∷ ts) = holders ts
holders (holding r p o ∷ ts) = suc (holders ts)

pub holders-append : (ts us : List GetTask) → holders (ts ++ us) ≡ holders ts + holders us
holders-append [] us = omega arith
holders-append (begun m ∷ ts) us = holders-append ts us
holders-append (waiting r p o ∷ ts) us = holders-append ts us
holders-append (holding r p o ∷ ts) us = omega (arith, holders-append ts us)

-- Payloads that were sent, or may be sent with the credits that are there.
abbrev pub committed : ZcopyConn → List GetTask → ℕ
committed zc tasks = payloads zc.sent + pos_part zc.credits + holders tasks

-- What the peer grants by a message.
abbrev pub grant_of : OpKind → Message → ℕ
grant_of hello_req msg = if msg.req_id == 0 then 0 else pos_part msg.credits
grant_of acks msg = pos_part msg.ack
grant_of _ msg = 0

abbrev pub granted_by : Option Message → ℕ
granted_by none = 0
granted_by (some msg) = grant_of (op_kind msg.op) msg

-- From `t` to `u` the commitment grows by at most `g`, and the credits stay nonnegative.
pub record Grows {S : Type 0} (g : ℕ) (t u : Session S) : Type 0 where
  pub nonneg : neg_part u.zc.credits ≡ 0
  pub bound : committed u.zc u.tasks ≤ committed t.zc t.tasks + g

pub pos_of_nonneg : (z : ℤ) → neg_part z ≡ 0 → z ≡ pos (pos_part z)
pos_of_nonneg (pos n) h = refl
pos_of_nonneg (negsuc n) h = absurd (omega arith)

set_credits_lem :
    (n : ℤ) (zc : ZcopyConn)
    → leb_ℤ n (pos 0) ≡ false
    → (neg_part n ≡ 0) × ((set_credits n zc).credits ≡ n) × ((set_credits n zc).sent ≡ zc.sent)
unfolding set_credits
set_credits_lem n zc h = (ground arith, ground arith, ground arith)

module _ {S : Type 0} (t : Session S) (nonneg : neg_part t.zc.credits ≡ 0) where
  after_send-Grows :
      (g : ℕ) (store : S) (r : ZcopyConn × Outcome)
      → neg_part r.0.credits ≡ 0
      → payloads r.0.sent + pos_part r.0.credits ≤ payloads t.zc.sent + pos_part t.zc.credits + g
      → Grows g t (after_send (record t { store = store }) r)
  unfolding after_send stop close
  after_send-Grows g store (zc, done) n b = record { nonneg = n; bound = omega arith }
  after_send-Grows g store (zc, failed e) n b = record { nonneg = n; bound = omega arith }

  same_after_send :
      (store : S) (r : ZcopyConn × Outcome)
      → SameFlow t.zc r.0
      → Grows 0 t (after_send (record t { store = store }) r)
  same_after_send store r h =
      after_send-Grows 0 store r (ground (arith, h.credits))
        (ground (arith, h.credits, h.payloads_sent))

  ignoring-Grows : (g : ℕ) (r : ZcopyConn × Outcome) → SameFlow t.zc r.0 → Grows g t (ignoring t r)
  unfolding ignoring
  ignoring-Grows g (zc, o) h = ground (arith, h.credits, h.payloads_sent)

  pub add_credits-Grows :
      (n : ℤ)
      → pos_part t.zc.credits + pos_part n < half_range
      → Grows (pos_part n) t (record t { zc = add_credits n t.zc })
  unfolding add_credits
  add_credits-Grows (negsuc n) small = ground arith
  add_credits-Grows (pos n) small =
      ground (arith, add64-pos (pos_part t.zc.credits) n, pos_of_nonneg t.zc.credits nonneg)

  module _ (api : ObjectStore S) (limit : ℤ) (delivers : ℕ → Bool) where
    pub on_ensure_bucket-Grows :
        (msg : Message) → Grows 0 t (on_ensure_bucket api limit delivers msg t)
    unfolding on_ensure_bucket
    on_ensure_bucket-Grows msg =
        if-elim (Grows 0 t) (msg.req_id == 0)
          (λ _. ignoring-Grows 0 _ (send_resp_err-SameFlow delivers 0 missing_req_id t.zc))
          λ _.
            if-elim (Grows 0 t) (is_empty (trim_space msg.bucket))
              (λ _.
                ignoring-Grows 0 _ (send_resp_err-SameFlow delivers msg.req_id bucket_empty t.zc))
              (λ _. same_after_send _ _ (send_resp_ok-SameFlow delivers msg.req_id t.zc))

    pub on_put-Grows : (msg : Message) → Grows 0 t (on_put api limit delivers msg t)
    unfolding on_put
    on_put-Grows msg = same_after_send _ _ (handle_put-SameFlow api delivers limit msg t.zc t.store)

    pub on_get-Grows : (msg : Message) → Grows 0 t (on_get api limit delivers msg t)
    unfolding on_get
    on_get-Grows msg =
        if-elim (Grows 0 t) (msg.req_id == 0)
          (λ _. same_after_send t.store _ (send_resp_err-SameFlow delivers 0 missing_req_id t.zc))
          (λ _. record {
            nonneg = nonneg;
            bound = omega (arith, holders-append t.tasks (begun msg ∷ []));
          })

    pub on_unknown-Grows : (msg : Message) → Grows 0 t (on_unknown api limit delivers msg t)
    unfolding on_unknown
    on_unknown-Grows msg =
        if-elim (Grows 0 t) (msg.req_id == 0) (λ _. record { nonneg = nonneg; bound = omega arith })
          (λ _.
            same_after_send t.store _
              (send_resp_err-SameFlow delivers msg.req_id unsupported_op t.zc))

    pub on_hello-Grows :
        (msg : Message) → Grows (grant_of hello_req msg) t (on_hello api limit delivers msg t)
    unfolding on_hello
    on_hello-Grows msg =
        if-elim (Grows (grant_of hello_req msg) t) (msg.req_id == 0)
          (λ _.
            ignoring-Grows (grant_of hello_req msg) _
              (send_resp_err-SameFlow delivers 0 missing_req_id t.zc))
          λ given.
            if-elim (Grows (grant_of hello_req msg) t) (leb_ℤ msg.credits (pos 0))
              (λ _.
                ignoring-Grows (grant_of hello_req msg) _ (send_control-SameFlow delivers _ t.zc))
              λ some_credits.
                let same =
                  send_control-SameFlow delivers
                    (record (blank op_hello_resp) { req_id = msg.req_id; credits = msg.credits })
                    (set_credits msg.credits t.zc) in
                let set = set_credits_lem msg.credits t.zc some_credits in
                after_send-Grows (grant_of hello_req msg) t.store _
                  (ground (arith, same.credits, set))
                  (ground (arith, same.credits, same.payloads_sent, set))
