-- ===== src/InmemZcopy/Closing.antt =====
-- internal/inmems3/zcopy/service.go: the end of serveConn, which closes the connection for waitCredit and
-- then waits for the GET goroutines: what a step of one of these does
use rdma_demo.Base.{
  ℕ, suc, ◌+◌, ◌≤◌, ◌≡◌, refl, subst, Bool, true, Option, none, some, List, [], ◌∷◌, ◌++◌, arith,
}
use rdma_demo.Base.Int.{ℤ}
use rdma_demo.Base.Text.{Str}
use rdma_demo.ZcopyProto.{Message}
use rdma_demo.ZcopyServer.Conn.{Frame}
use rdma_demo.ZcopyServer.Handlers.{
  GetTask, begun, waiting, holding, GetCheck, get_refused, get_offered, check_get,
}
use rdma_demo.ZcopyServer.Flow.{payloads, send_payload-flow, handle_get-SameFlow}
use rdma_demo.ZcopyServer.Credits.{holders}
use rdma_demo.ZcopyServer.Interleaving.{option_list}
use rdma_demo.InmemZcopy.Conn.{
  ZcopyConn, transmit, send_control, send_resp_err, send_announced, wait_credit,
}
use rdma_demo.InmemZcopy.Handlers.{ObjectStore, answer_error, handle_get}
use rdma_demo.InmemZcopy.Session.{advance}
use rdma_demo.InmemZcopy.Agreement.{
  KeepsObjects, adapted, send_announced-send_payload, handle_get-agrees, perform_get,
  handle_get-perform_get,
}

-- How many steps a goroutine may still take.
abbrev pub steps_left : GetTask → ℕ
steps_left (begun msg) = 3
steps_left (waiting r p o) = 2
steps_left (holding r p o) = 1

abbrev pub work : List GetTask → ℕ
work [] = 0
work (x ∷ l) = steps_left x + work l

pub work-append : (l m : List GetTask) → work (l ++ m) ≡ work l + work m
work-append [] m = omega arith
work-append (x ∷ l) m = omega (arith, work-append l m)

module _ (delivers : ℕ → Bool) where
  closed-transmit : (f : Frame) (zc : ZcopyConn) → (transmit delivers f zc).0.closed ≡ zc.closed
  unfolding transmit
  closed-transmit f zc = ground arith

  closed-send_resp_err :
      (r : ℕ) (text : Str) (zc : ZcopyConn)
      → (send_resp_err delivers r text zc).0.closed ≡ zc.closed
  unfolding send_resp_err
  closed-send_resp_err r text zc = ground arith

  closed-send_announced :
      (r : ℕ) (p : Str) (o : ℤ) (zc : ZcopyConn)
      → (send_announced delivers r p o zc).0.closed ≡ zc.closed
  unfolding send_announced send_control
  closed-send_announced r p o zc = ground arith

-- What a step of a goroutine of a closed connection leads to.
pub record Advanced (task : GetTask) (zc zc' : ZcopyConn) (rest : Option GetTask) : Type 0 where
  pub closed : zc'.closed ≡ zc.closed
  pub credits : zc'.credits ≡ zc.credits
  pub fewer : suc (work (option_list rest)) ≤ steps_left task
  pub sent : payloads zc'.sent + holders (option_list rest) ≤ payloads zc.sent + holders (task ∷ [])

moved :
    {task : GetTask} {zc zc' : ZcopyConn} {rest : Option GetTask} {x : ZcopyConn × Option GetTask}
    → some x ≡ some (zc', rest)
    → Advanced task zc x.0 x.1
    → Advanced task zc zc' rest
moved {task} {zc} {zc'} {rest} {x} e a =
    let q : x ≡ (zc', rest) = cc in subst (λ y. Advanced task zc y.0 y.1) q a

module _ {S : Type 0} (api : ObjectStore S) (keeps : KeepsObjects api) (md5 : Str → Str) (limit : ℤ)
    (delivers : ℕ → Bool) where
  perform_get_facts :
      (r : ℕ) (c : GetCheck) (zc : ZcopyConn)
      → let done = perform_get api keeps md5 limit delivers r c zc in
        (done.0.closed ≡ zc.closed)
        × (work (option_list done.1) ≤ 2)
        × (holders (option_list done.1) ≡ 0)
  unfolding perform_get answer_error
  perform_get_facts r (get_refused text) zc =
      (closed-send_resp_err delivers r text zc, omega arith, refl)
  perform_get_facts r (get_offered p o) zc = (refl, omega arith, refl)

  handle_get-Advanced :
      (msg : Message) (zc : ZcopyConn) (store : S)
      → let done = handle_get api md5 delivers msg zc store in Advanced (begun msg) zc done.0 done.1
  handle_get-Advanced msg zc store =
      let performed = handle_get-perform_get api keeps md5 limit delivers msg zc store in
      let (c, w, h) = perform_get_facts msg.req_id (check_get (adapted api keeps) msg store) zc in
      let flow = handle_get-SameFlow (adapted api keeps) delivers msg zc store in
      let same = handle_get-agrees api keeps md5 limit delivers msg zc store in
      let now = handle_get api md5 delivers msg zc store in
      let quiet : payloads now.0.sent ≡ payloads zc.sent = rw same flow.payloads_sent in
      let idle : holders (option_list now.1) ≡ 0 = rw performed h in
      record {
        closed = rw performed c;
        credits = rw same flow.credits;
        fewer = rw performed (omega (arith, w));
        sent = omega (arith, quiet, idle);
      }

  send_announced-Advanced :
      (r : ℕ) (p : Str) (o : ℤ) (zc : ZcopyConn)
      → Advanced (holding r p o) zc (send_announced delivers r p o zc).0 none
  send_announced-Advanced r p o zc =
      let agree = send_announced-send_payload delivers r p o zc in
      let flow = send_payload-flow delivers r p o zc in
      let more : payloads (send_announced delivers r p o zc).0.sent ≤ suc (payloads zc.sent) =
        rw agree flow.1 in
      record {
        closed = closed-send_announced delivers r p o zc;
        credits = rw agree flow.0;
        fewer = omega arith;
        sent = omega (arith, more);
      }

  pub advance-Advanced :
      (task : GetTask) (zc zc' : ZcopyConn) (store : S) (rest : Option GetTask)
      → zc.closed ≡ true
      → advance api md5 limit delivers task zc store ≡ some (zc', rest)
      → Advanced task zc zc' rest
  unfolding advance wait_credit
  advance-Advanced (begun msg) zc zc' store rest h e = moved e (handle_get-Advanced msg zc store)
  advance-Advanced (waiting r p o) zc zc' store rest h e = ground arith
  advance-Advanced (holding r p o) zc zc' store rest h e =
      moved e (send_announced-Advanced r p o zc)
