-- ===== src/ZcopyServer/Gets.antt =====
-- internal/s3rdmaserver/zcopy/service.go: a GET goroutine that runs alone, from its request to its end
use rdma_demo.Base.{
  ℕ, zero, suc, ◌≡◌, refl, Bool, true, Option, none, some, List, [], ◌∷◌, ◌++◌, arith, sym, inl,
  inr, Bool-cases, if◌then◌else◌,
}
use mathlib.Core.List.{append-nil, append_assoc}
use rdma_demo.Base.Int.{ℤ, pos, ltb_ℤ, sub64, ◌<ℤ◌}
use rdma_demo.Base.Text.{Str}
use rdma_demo.ZcopyProto.{Message, blank, op_resp_err}
use rdma_demo.Transport.{Frame, control, payload_at}
use rdma_demo.ZcopyServer.Conn.{
  ZcopyConn, done, granted, wait_credit, send_frame, send_control, send_resp_err, send_after_meta,
  meta_message, send_payload,
}
use rdma_demo.ZcopyServer.Handlers.{
  ObjectStore, GetTask, GetCheck, begun, get_refused, get_offered, check_get, act_get, handle_get,
}
use rdma_demo.ZcopyServer.Session.{run_task}

-- The frames that answer a GET: an error, the meta message and the object's body, or nothing if the
-- offset is negative.
abbrev pub answer : ℕ → GetCheck → List Frame
answer r (get_refused text) = control (record (blank op_resp_err) { req_id = r; error = text }) ∷ []
answer r (get_offered payload o) =
    if ltb_ℤ o (pos 0) then [] else control (meta_message r payload o) ∷ payload_at payload o ∷ []

-- The credits that a GET leaves.
abbrev pub credits_after : GetCheck → ℤ → ℤ
credits_after (get_refused text) credits = credits
credits_after (get_offered payload o) credits = sub64 credits (pos 1)

module _ {S : Type 0} (api : ObjectStore S) (limit : ℤ) (delivers : ℕ → Bool) where
  -- At most that many steps of a goroutine, while nothing else runs.
  abbrev pub alone : ℕ → GetTask → ZcopyConn → S → ZcopyConn × Option GetTask
  alone zero task zc store = (zc, some task)
  alone (suc n) task zc store = elim (run_task api limit delivers task zc store) [
    | none ↦ (zc, some task)
    | some r ↦ elim r.1 [ none ↦ (r.0, none) | some next ↦ alone n next r.0 store ]
  ]

  module _ (sends : (n : ℕ) → delivers n ≡ true) where
    send_frame_lem :
        (f : Frame) (zc : ZcopyConn)
        → send_frame delivers f zc
          ≡ (record zc { attempts = suc zc.attempts; sent = zc.sent ++ f ∷ [] }, done)
    unfolding send_frame
    send_frame_lem f zc = rw (sends zc.attempts) refl

    send_payload_lem :
        (r : ℕ) (p : Str) (o : ℤ) (zc : ZcopyConn)
        → ((send_payload delivers r p o zc).0.sent ≡ zc.sent ++ answer r (get_offered p o))
          × ((send_payload delivers r p o zc).0.credits ≡ zc.credits)
    unfolding send_payload send_control send_after_meta
    send_payload_lem r p o zc = elim (Bool-cases (ltb_ℤ o (pos 0))) [
      | inl negative ↦ rw negative (sym (append-nil zc.sent), refl)
      | inr fits ↦
          let announced = control (meta_message r p o) in
          let zc' : ZcopyConn = record zc {
            attempts = suc zc.attempts;
            sent = zc.sent ++ announced ∷ [];
          } in
          rw (fits, send_frame_lem announced zc, send_frame_lem (payload_at p o) zc')
            (append_assoc zc.sent (announced ∷ []) (payload_at p o ∷ []), refl)
    ]

    wait_credit_lem :
        (zc : ZcopyConn)
        → pos 0 <ℤ zc.credits
        → wait_credit zc ≡ granted (record zc { credits = sub64 zc.credits (pos 1) })
    unfolding wait_credit
    wait_credit_lem zc credit = ground arith

    -- What a goroutine does once the request is checked.
    checked_lem :
        (r : ℕ) (c : GetCheck) (zc : ZcopyConn) (store : S)
        → pos 0 <ℤ zc.credits
        → let checked = act_get api delivers r c zc in
          let result : ZcopyConn × Option GetTask = elim checked.1 [
            | none ↦ (checked.0, none)
            | some next ↦ alone 2 next checked.0 store
          ] in
          (result.1 ≡ none)
          × (result.0.sent ≡ zc.sent ++ answer r c)
          × (result.0.credits ≡ credits_after c zc.credits)
    unfolding act_get run_task send_resp_err send_control
    checked_lem r (get_refused text) zc store credit = rw send_frame_lem (refl, refl, refl)
    checked_lem r (get_offered p o) zc store credit =
        let (frames, credits) =
          send_payload_lem r p o (record zc { credits = sub64 zc.credits (pos 1) }) in
        rw (wait_credit_lem zc credit, run_task, alone) (refl, frames, credits)

    -- A GET that runs alone while there is a credit and the sends succeed ends within three steps,
    -- whatever it asks for. A refused one has sent one error response and used no credit; an accepted
    -- one has sent its get_meta message and the body and used one credit, except that with a negative
    -- offset it has sent nothing at all, and the credit is gone.
    pub get_alone_lem :
        (msg : Message) (zc : ZcopyConn) (store : S)
        → pos 0 <ℤ zc.credits
        → let result = alone 3 (begun msg) zc store in
          (result.1 ≡ none)
          × (result.0.sent ≡ zc.sent ++ answer msg.req_id (check_get api msg store))
          × (result.0.credits ≡ credits_after (check_get api msg store) zc.credits)
    unfolding run_task handle_get
    get_alone_lem msg zc store credit =
        checked_lem msg.req_id (check_get api msg store) zc store credit
