-- ===== src/ZcopyServer/Interleaving.antt =====
-- internal/s3rdmaserver/zcopy/service.go: the serving loop, the GET goroutines and the peer, in any
-- order of steps
use rdma_demo.Base.{
  ℕ, ◌+◌, ◌≤◌, ◌<◌, ◌≡◌, refl, Bool, true, Option, none, some, List, [], ◌∷◌, ◌++◌, arith, ap,
}
use rdma_demo.Base.Int.{ℤ, pos_part, neg_part, half_range, sub64-pos}
use rdma_demo.ZcopyProto.{
  Message, Json, OpKind, hello_req, ensure_bucket_req, put_req, get_req, acks, op_kind,
}
use rdma_demo.ZcopyServer.Conn.{
  ZcopyConn, Borrowed, Wait, blocks, granted, refused, close, new_conn, wait_credit, recv_control,
}
use rdma_demo.ZcopyServer.Handlers.{
  ObjectStore, GetTask, begun, waiting, holding, Session, GetCheck, get_refused, get_offered,
  check_get, act_get, handle_get,
}
use rdma_demo.ZcopyServer.Session.{stop, dispatch, serve_message, serve_round, run_task}
use rdma_demo.ZcopyServer.Flow.{
  payloads, send_payload-flow, recv_control-SameFlow, handle_get-SameFlow,
}
use rdma_demo.ZcopyServer.Credits.{
  holders, holders-append, committed, grant_of, granted_by, Grows, on_hello-Grows,
  on_ensure_bucket-Grows, on_put-Grows, on_get-Grows, on_unknown-Grows, add_credits-Grows,
}

abbrev pub option_list : Option GetTask → List GetTask
option_list none = []
option_list (some x) = x ∷ []

-- A GET that begins takes no credit yet.
holders-handle_get :
    {S : Type 0} (api : ObjectStore S) (delivers : ℕ → Bool) (msg : Message) (zc : ZcopyConn)
    (store : S)
    → holders (option_list (handle_get api delivers msg zc store).1) ≡ 0
unfolding handle_get
holders-handle_get api delivers msg zc store = cases msg.req_id (check_get api msg store) zc
  where
    cases :
        (r : ℕ) (c : GetCheck) (z : ZcopyConn)
        → holders (option_list (act_get api delivers r c z).1) ≡ 0
    cases r (get_refused text) z = unfold act_get in refl
    cases r (get_offered p o) z = unfold act_get in refl

-- waitCredit takes one credit, and only from a positive number.
pub wait_credit-granted :
    (zc zc' : ZcopyConn)
    → wait_credit zc ≡ granted zc'
    → pos_part zc.credits < half_range
    → (neg_part zc'.credits ≡ 0)
      × (pos_part zc'.credits + 1 ≡ pos_part zc.credits)
      × (zc'.sent ≡ zc.sent)
unfolding wait_credit
wait_credit-granted zc zc' e small =
    let taken = sub64-pos (pos_part zc.credits) 1 in
    (ground (arith, taken), ground (arith, taken), ground arith)

module _ {S : Type 0} (api : ObjectStore S) (limit : ℤ) (delivers : ℕ → Bool) (json : Json) where
  -- A step, with the credits that it grants.
  pub data Step : Session S → ℕ → Session S → Type 0 where
    arrives :
        (t : Session S) (m : Borrowed)
        → Step t 0 (record t { zc = record t.zc { inbox = t.zc.inbox ++ m ∷ [] } })
    serves :
        (t : Session S) (g : ℕ)
        → t.running ≡ true
        → g ≡ granted_by (recv_control json t.zc).1
        → Step t g (serve_round api limit delivers json t)
    gets :
        (t : Session S) (before after : List GetTask) (task : GetTask) (zc : ZcopyConn)
        (rest : Option GetTask)
        → t.tasks ≡ before ++ task ∷ after
        → run_task api limit delivers task t.zc t.store ≡ some (zc, rest)
        → Step t 0 (record t { zc = zc; tasks = before ++ (option_list rest ++ after) })

  -- A run, with the credits that it grants in all.
  pub data Run (s : Session S) : ℕ → Session S → Type 0 where
    here : Run s 0 s
    next : {t u : Session S} {g h n : ℕ} → Run s g t → Step t h u → n ≡ g + h → Run s n u

  dispatch-Grows :
      (k : OpKind) (msg : Message) (t : Session S)
      → neg_part t.zc.credits ≡ 0
      → pos_part t.zc.credits + grant_of k msg < half_range
      → Grows (grant_of k msg) t (dispatch api limit delivers k msg t)
  unfolding dispatch
  dispatch-Grows hello_req msg t n small = on_hello-Grows t n api limit delivers msg
  dispatch-Grows acks msg t n small = add_credits-Grows t n msg.ack small
  dispatch-Grows ensure_bucket_req msg t n small = on_ensure_bucket-Grows t n api limit delivers msg
  dispatch-Grows put_req msg t n small = on_put-Grows t n api limit delivers msg
  dispatch-Grows get_req msg t n small = on_get-Grows t n api limit delivers msg
  dispatch-Grows _ msg t n small = on_unknown-Grows t n api limit delivers msg

  serve_message-Grows :
      (msg : Option Message) (t : Session S)
      → neg_part t.zc.credits ≡ 0
      → pos_part t.zc.credits + granted_by msg < half_range
      → Grows (granted_by msg) t (serve_message api limit delivers msg t)
  unfolding serve_message stop close
  serve_message-Grows none t n small = record { nonneg = n; bound = omega arith }
  serve_message-Grows (some msg) t n small = dispatch-Grows (op_kind msg.op) msg t n small

  run_task-Grows :
      (task : GetTask) (zc zc' : ZcopyConn) (store : S) (rest : Option GetTask)
      → neg_part zc.credits ≡ 0
      → pos_part zc.credits < half_range
      → run_task api limit delivers task zc store ≡ some (zc', rest)
      → (neg_part zc'.credits ≡ 0)
        × (payloads zc'.sent + pos_part zc'.credits + holders (option_list rest)
            ≤ payloads zc.sent + pos_part zc.credits + holders (task ∷ []))
  unfolding run_task
  run_task-Grows (begun msg) zc zc' store rest n small e = ground (
    arith,
    (handle_get-SameFlow api delivers msg zc store).credits,
    (handle_get-SameFlow api delivers msg zc store).payloads_sent,
    holders-handle_get api delivers msg zc store,
  )
  run_task-Grows (waiting r p o) zc zc' store rest n small e = waits (wait_credit zc) refl
    where
      waits :
          (w : Wait)
          → wait_credit zc ≡ w
          → (neg_part zc'.credits ≡ 0)
            × (payloads zc'.sent + pos_part zc'.credits + holders (option_list rest)
                ≤ payloads zc.sent + pos_part zc.credits + 0)
      waits blocks h = absurd (ground arith)
      waits (refused x) h = ground arith
      waits (granted z) h = ground (arith, wait_credit-granted zc z h)
  run_task-Grows (holding r p o) zc zc' store rest n small e =
      let (same, more) = send_payload-flow delivers r p o zc in ground (arith, same, more)

  Step-Grows :
      {t u : Session S} {g : ℕ}
      → Step t g u
      → neg_part t.zc.credits ≡ 0
      → committed t.zc t.tasks + g < half_range
      → Grows g t u
  unfolding serve_round
  Step-Grows (arrives t m) n small = record { nonneg = n; bound = omega arith }
  Step-Grows (serves t g _ e) n small = ground (
    arith,
    (recv_control-SameFlow json t.zc).credits,
    (recv_control-SameFlow json t.zc).payloads_sent,
    (serve_message-Grows (recv_control json t.zc).1 (record t { zc = (recv_control json t.zc).0 })),
  )
  Step-Grows (gets t before after task zc rest e r) n small =
      let (n', le) = run_task-Grows task t.zc zc t.store rest n (omega arith) r in
      record {
        nonneg = n';
        bound = omega (
          arith,
          ap holders e,
          holders-append before (task ∷ after),
          holders-append (task ∷ []) after,
          holders-append before (option_list rest ++ after),
          holders-append (option_list rest) after,
        );
      }

  Run-Grows :
      {s t : Session S} {g : ℕ}
      → Run s g t
      → neg_part s.zc.credits ≡ 0
      → committed s.zc s.tasks + g < half_range
      → Grows g s t
  Run-Grows here n small = record { nonneg = n; bound = omega arith }
  Run-Grows (next r st e) n small =
      let before = Run-Grows r n (omega arith) in
      let after = Step-Grows st before.nonneg (omega arith) in
      record { nonneg = after.nonneg; bound = omega arith }

-- The session of a new connection.
abbrev pub fresh : {S : Type 0} → List Borrowed → S → Session S
fresh inbox store = record { zc = new_conn inbox; store = store; tasks = []; running = true }

-- Flow control: in every interleaving of the serving loop, the GET goroutines and the peer, the
-- payloads that were sent, the credits left and the goroutines between waitCredit and their send are
-- together at most the credits that the peer granted, by its hellos and acks. The condition is that
-- the granted credits fit into an int.
pub payloads-le-granted :
    {S : Type 0} (api : ObjectStore S) (limit : ℤ) (delivers : ℕ → Bool) (json : Json)
    (inbox : List Borrowed) (store : S) {t : Session S} {g : ℕ}
    → Run api limit delivers json (fresh inbox store) g t
    → g < half_range
    → payloads t.zc.sent + pos_part t.zc.credits + holders t.tasks ≤ g
unfolding new_conn
payloads-le-granted api limit delivers json inbox store r small =
    omega (arith, (Run-Grows api limit delivers json r refl (omega arith)).bound)
