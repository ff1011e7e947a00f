-- ===== src/ZcopyServer/Frames.antt =====
-- internal/s3rdmaserver/zcopy/service.go: what the handlers put on the wire, and what they do to the
-- store
use rdma_demo.Base.{
  ℕ, suc, sym, ◌≡◌, refl, Bool, List, [], ◌∷◌, ◌++◌, arith, inl, inr, ◌⊎◌, Bool-cases, ◌∙◌, ap,
  subst,
}
use rdma_demo.Base.Int.{ℤ, pos, ltb_ℤ, ◌≤ℤ◌}
use rdma_demo.Base.Text.{Str}
use rdma_demo.ZcopyProto.{Message, Json}
use rdma_demo.ZcopyServer.Conn.{
  Frame, control, payload_at, ZcopyConn, Outcome, done, failed, send_frame, send_control,
  send_resp_ok, send_resp_err, send_after_meta, meta_message, send_payload, recv_message,
  recv_control, receive_borrowed, recv_payload_at,
}
use rdma_demo.ZcopyServer.Handlers.{
  ObjectStore, PutCheck, put_refused, put_accepted, GetCheck, get_refused, get_offered, finish_put,
  check_put, check_get, act_put, act_get, handle_put, handle_get,
}

-- A trace of frames: control messages, and payloads, each directly after the message that announces
-- its size and its offset, and each with the property `P`.
pub data Framed (P : Str → ℤ → Type 0) : List Frame → Type 0 where
  empty : Framed P []
  plain : {fs gs : List Frame} (m : Message) → Framed P fs → gs ≡ fs ++ control m ∷ [] → Framed P gs
  announced :
      {fs gs : List Frame} (req_id : ℕ) (p : Str) (o : ℤ)
      → Framed P fs
      → P p o
      → gs ≡ (fs ++ control (meta_message req_id p o) ∷ []) ++ payload_at p o ∷ []
      → Framed P gs

-- At most one control message was sent, and no payload.
abbrev pub Plain : ZcopyConn → ZcopyConn → Type 0
Plain zc zc' = (zc'.sent ≡ zc.sent) ⊎ ((m : Message) × (zc'.sent ≡ zc.sent ++ control m ∷ []))

pub Framed-Plain :
    {P : Str → ℤ → Type 0} (zc zc' : ZcopyConn)
    → Plain zc zc'
    → Framed P zc.sent
    → Framed P zc'.sent
Framed-Plain {P} zc zc' (inl same) h = subst (Framed P) (sym same) h
Framed-Plain {P} zc zc' (inr (m, more)) h = plain m h more

module _ (delivers : ℕ → Bool) where
  pub send_control-Plain : (m : Message) (zc : ZcopyConn) → Plain zc (send_control delivers m zc).0
  unfolding send_control send_frame
  send_control-Plain m zc = elim (Bool-cases (delivers zc.attempts)) [
    | inl good ↦ rw (good, send_control) (inr (m, refl))
    | inr bad ↦ rw (bad, send_control) (inl refl)
  ]

  pub send_resp_ok-Plain : (r : ℕ) (zc : ZcopyConn) → Plain zc (send_resp_ok delivers r zc).0
  unfolding send_resp_ok
  send_resp_ok-Plain r zc = send_control-Plain _ zc

  pub send_resp_err-Plain :
      (r : ℕ) (text : Str) (zc : ZcopyConn) → Plain zc (send_resp_err delivers r text zc).0
  unfolding send_resp_err
  send_resp_err-Plain r text zc = send_control-Plain _ zc

  -- A payload goes out only after the message that announces it went out.
  pub send_payload-Framed :
      {P : Str → ℤ → Type 0} (r : ℕ) (p : Str) (o : ℤ) (zc : ZcopyConn)
      → (pos 0 ≤ℤ o → P p o)
      → Framed P zc.sent
      → Framed P (send_payload delivers r p o zc).0.sent
  unfolding send_payload send_control send_frame send_after_meta
  send_payload-Framed r p o zc good h = elim (Bool-cases (ltb_ℤ o (pos 0))) [
    | inl negative ↦ rw (negative, send_payload) h
    | inr fits ↦ elim (Bool-cases (delivers zc.attempts)) [
      | inl meta_sent ↦ elim (Bool-cases (delivers (suc zc.attempts))) [
        | inl payload_sent ↦
            rw (fits, meta_sent, payload_sent) (announced r p o h (good (ground arith)) refl)
        | inr payload_failed ↦
            rw (fits, meta_sent, payload_failed) (plain (meta_message r p o) h refl)
      ]
      | inr meta_failed ↦ rw (fits, meta_failed) h
    ]
  ]

pub recv_payload_at-sent :
    (size o : ℤ) (zc : ZcopyConn) → (recv_payload_at size o zc).0.sent ≡ zc.sent
unfolding recv_payload_at receive_borrowed
recv_payload_at-sent size o zc = ground arith

pub recv_control-sent : (json : Json) (zc : ZcopyConn) → (recv_control json zc).0.sent ≡ zc.sent
unfolding recv_control recv_message
recv_control-sent json zc = ground arith

module _ {S : Type 0} (api : ObjectStore S) (delivers : ℕ → Bool) where
  finish_put-Plain :
      (r : ℕ) (bucket : Str) (store : S) (zc : ZcopyConn) (p : ZcopyConn × Outcome)
      → p.0.sent ≡ zc.sent
      → Plain zc (finish_put api delivers r bucket store p).0
  unfolding finish_put
  finish_put-Plain r bucket store zc (zc', failed e) h = inl h
  finish_put-Plain r bucket store zc (zc', done) h = elim (send_resp_ok-Plain delivers r zc') [
    | inl same ↦ inl (same ∙ h)
    | inr (m, more) ↦ inr (m, more ∙ ap (λ fs. fs ++ control m ∷ []) h)
  ]

  act_put-Plain :
      (r : ℕ) (c : PutCheck) (zc : ZcopyConn) (store : S)
      → Plain zc (act_put api delivers r c zc store).0
  unfolding act_put
  act_put-Plain r (put_refused q text) zc store = send_resp_err-Plain delivers q text zc
  act_put-Plain r (put_accepted bucket size o) zc store =
      finish_put-Plain r bucket store zc (recv_payload_at size o zc)
        (recv_payload_at-sent size o zc)

  pub handle_put-Plain :
      (limit : ℤ) (msg : Message) (zc : ZcopyConn) (store : S)
      → Plain zc (handle_put api delivers limit msg zc store).0
  unfolding handle_put
  handle_put-Plain limit msg zc store = act_put-Plain msg.req_id (check_put limit msg) zc store

  act_get-Plain : (r : ℕ) (c : GetCheck) (zc : ZcopyConn) → Plain zc (act_get api delivers r c zc).0
  unfolding act_get
  act_get-Plain r (get_refused text) zc = send_resp_err-Plain delivers r text zc
  act_get-Plain r (get_offered p o) zc = inl refl

  pub handle_get-Plain :
      (msg : Message) (zc : ZcopyConn) (store : S)
      → Plain zc (handle_get api delivers msg zc store).0
  unfolding handle_get
  handle_get-Plain msg zc store = act_get-Plain msg.req_id (check_get api msg store) zc

  finish_put-reads :
      (r : ℕ) (name : Str) (store : S) (p : ZcopyConn × Outcome) (bucket key : Str)
      → api.get_object bucket key (finish_put api delivers r name store p).1
        ≡ api.get_object bucket key store
  unfolding finish_put
  finish_put-reads r name store (zc, failed e) bucket key = refl
  finish_put-reads r name store (zc, done) bucket key =
      api.get_object-create_bucket name store bucket key

  act_put-reads :
      (r : ℕ) (c : PutCheck) (zc : ZcopyConn) (store : S) (bucket key : Str)
      → api.get_object bucket key (act_put api delivers r c zc store).1
        ≡ api.get_object bucket key store
  unfolding act_put
  act_put-reads r (put_refused q text) zc store bucket key = refl
  act_put-reads r (put_accepted name size o) zc store bucket key =
      finish_put-reads r name store (recv_payload_at size o zc) bucket key

  -- No object changes by a PUT: its payload is discarded.
  pub handle_put-reads :
      (limit : ℤ) (msg : Message) (zc : ZcopyConn) (store : S) (bucket key : Str)
      → api.get_object bucket key (handle_put api delivers limit msg zc store).1
        ≡ api.get_object bucket key store
  unfolding handle_put
  handle_put-reads limit msg zc store bucket key =
      act_put-reads msg.req_id (check_put limit msg) zc store bucket key
