-- ===== src/ZcopyServer/Delivery.antt =====
-- internal/s3rdmaserver/zcopy/service.go: what a peer can receive, in any order of steps
use rdma_demo.Base.{
  ℕ, ◌≡◌, refl, sym, subst, Bool, Option, none, some, List, [], ◌∷◌, ◌++◌, arith, inl, inr, ◌∙◌,
  All,
}
use rdma_demo.Base.Int.{ℤ, pos, ◌≤ℤ◌}
use rdma_demo.Base.Text.{Str}
use rdma_demo.ZcopyProto.{Message, Json}
use rdma_demo.RdmaStore.{Object}
use rdma_demo.ZcopyServer.Conn.{
  ZcopyConn, Borrowed, Wait, blocks, granted, refused, wait_credit, new_conn,
}
use rdma_demo.ZcopyServer.Handlers.{
  ObjectStore, GetTask, begun, waiting, holding, Session, GetCheck, get_refused, get_offered,
  act_get, check_get, handle_get,
}
use rdma_demo.ZcopyServer.Session.{run_task}
use rdma_demo.ZcopyServer.Requests.{check_get-offered}
use rdma_demo.ZcopyServer.Conn.{send_payload}
use rdma_demo.ZcopyServer.Frames.{
  Framed, empty, Framed-Plain, send_payload-Framed, handle_get-Plain,
}
use rdma_demo.ZcopyServer.Interleaving.{
  Step, arrives, serves, gets, Run, here, next, fresh, option_list,
}
use rdma_demo.ZcopyServer.Rounds.{Quiet, serve_round-Quiet}

module _ {S : Type 0} (api : ObjectStore S) where
  -- A body of an object of the store.
  abbrev pub Held : S → Str → Type 0
  Held store p =
      (bucket key : Str) × (obj : Object) × (api.get_object bucket key store ≡ some obj)
      × (p ≡ obj.body)

  abbrev pub Stored : S → Str → ℤ → Type 0
  Stored store p o = (pos 0 ≤ℤ o) × Held store p

  abbrev TaskSound : S → GetTask → Type 0
  TaskSound store (begun m) = Unit
  TaskSound store (waiting r p o) = Held store p
  TaskSound store (holding r p o) = Held store p

  -- What holds of every state that a run from `store` reaches.
  record Sound (store : S) (t : Session S) : Type 0 where
    frames : Framed (Stored store) t.zc.sent
    pending : All (TaskSound store) t.tasks
    reads : (bucket key : Str) → api.get_object bucket key t.store ≡ api.get_object bucket key store

  All-split : (P : GetTask → Type 0) (xs ys : List GetTask) → All P (xs ++ ys) → All P xs × All P ys
  All-split P [] ys h = (tt, h)
  All-split P (x ∷ xs) ys (px, h) = let (a, b) = All-split P xs ys h in ((px, a), b)

  All-join : (P : GetTask → Type 0) (xs ys : List GetTask) → All P xs → All P ys → All P (xs ++ ys)
  All-join P [] ys h k = k
  All-join P (x ∷ xs) ys (px, h) k = (px, All-join P xs ys h k)

  Quiet-Sound : {store : S} {t u : Session S} → Quiet api t u → Sound store t → Sound store u
  Quiet-Sound {store} {t} {u} q h = record {
    frames = Framed-Plain t.zc u.zc q.sends h.frames;
    pending = elim q.begins [
      | inl same ↦ subst (All (TaskSound store)) (sym same) h.pending
      | inr (m, more) ↦
          subst (All (TaskSound store)) (sym more)
            (All-join (TaskSound store) t.tasks (begun m ∷ []) h.pending (tt, tt))
    ];
    reads = λ bucket key. q.reads bucket key ∙ h.reads bucket key;
  }

  offered_Held :
      (delivers : ℕ → Bool) (msg : Message) (zc : ZcopyConn) (store s0 : S)
      → ((bucket key : Str) → api.get_object bucket key store ≡ api.get_object bucket key s0)
      → All (TaskSound s0) (option_list (handle_get api delivers msg zc store).1)
  unfolding handle_get act_get
  offered_Held delivers msg zc store s0 same = cases (check_get api msg store) refl
    where
      cases :
          (c : GetCheck)
          → check_get api msg store ≡ c
          → All (TaskSound s0) (option_list (act_get api delivers msg.req_id c zc).1)
      cases (get_refused text) e = tt
      cases (get_offered p o) e =
          let (obj, found, body, offset, max, fits) = check_get-offered api msg store p o e in
          ((_, _, obj, sym (same _ _) ∙ found, body), tt)

  run_task-Sound :
      (limit : ℤ) (delivers : ℕ → Bool) (task : GetTask) (zc zc' : ZcopyConn) (store s0 : S)
      (rest : Option GetTask)
      → run_task api limit delivers task zc store ≡ some (zc', rest)
      → ((bucket key : Str) → api.get_object bucket key store ≡ api.get_object bucket key s0)
      → TaskSound s0 task
      → Framed (Stored s0) zc.sent
      → Framed (Stored s0) zc'.sent × All (TaskSound s0) (option_list rest)
  unfolding run_task wait_credit
  run_task-Sound limit delivers (begun msg) zc zc' store s0 rest e same ok framed =
      let r = handle_get api delivers msg zc store in
      let conn_eq : r.0 ≡ zc' = ground arith in
      let rest_eq : r.1 ≡ rest = ground arith in
      (
        subst (λ z. Framed (Stored s0) z.sent) conn_eq
            (Framed-Plain zc r.0 (handle_get-Plain api delivers msg zc store) framed),
        subst (λ k. All (TaskSound s0) (option_list k)) rest_eq
            (offered_Held delivers msg zc store s0 same),
      )
  run_task-Sound limit delivers (waiting r p o) zc zc' store s0 rest e same ok framed =
      waits (wait_credit zc) refl
    where
      waits :
          (w : Wait)
          → wait_credit zc ≡ w
          → Framed (Stored s0) zc'.sent × All (TaskSound s0) (option_list rest)
      waits blocks h = absurd (ground arith)
      waits (refused x) h =
          let conn_eq : zc.sent ≡ zc'.sent = ground arith in
          let rest_eq : none ≡ rest = ground arith in
          (
            subst (Framed (Stored s0)) conn_eq framed,
            subst (λ k. All (TaskSound s0) (option_list k)) rest_eq tt,
          )
      waits (granted z) h =
          let conn_eq : zc.sent ≡ zc'.sent = ground arith in
          let rest_eq : some (holding r p o) ≡ rest = ground arith in
          (
            subst (Framed (Stored s0)) conn_eq framed,
            subst (λ k. All (TaskSound s0) (option_list k)) rest_eq (ok, tt),
          )
  run_task-Sound limit delivers (holding r p o) zc zc' store s0 rest e same ok framed =
      let conn_eq : (send_payload delivers r p o zc).0 ≡ zc' = ground arith in
      let rest_eq : none ≡ rest = ground arith in
      (
        subst (λ z. Framed (Stored s0) z.sent) conn_eq
            (send_payload-Framed delivers r p o zc (λ nonneg. (nonneg, ok)) framed),
        subst (λ k. All (TaskSound s0) (option_list k)) rest_eq tt,
      )

  module _ (limit : ℤ) (delivers : ℕ → Bool) (json : Json) where
    Step-Sound :
        {store : S} {t u : Session S} {g : ℕ}
        → Step api limit delivers json t g u
        → Sound store t
        → Sound store u
    Step-Sound (arrives t m) h = record { frames = h.frames; pending = h.pending; reads = h.reads }
    Step-Sound (serves t g _ _) h = Quiet-Sound (serve_round-Quiet api limit delivers json t) h
    Step-Sound {store} (gets t before after task zc rest e r) h =
        let (front, (task_ok, back)) =
          All-split (TaskSound store) before (task ∷ after)
            (subst (All (TaskSound store)) e h.pending) in
        let (frames, left) =
          run_task-Sound limit delivers task t.zc zc t.store store rest r h.reads task_ok
            h.frames in
        record {
          frames = frames;
          pending =
              All-join (TaskSound store) before (option_list rest ++ after) front
                (All-join (TaskSound store) (option_list rest) after left back);
          reads = h.reads;
        }

    Run-Sound :
        {store : S} {s t : Session S} {g : ℕ}
        → Run api limit delivers json s g t
        → Sound store s
        → Sound store t
    Run-Sound here h = h
    Run-Sound (next r st _) h = Step-Sound st (Run-Sound r h)

    fresh-Sound : (inbox : List Borrowed) (store : S) → Sound store (fresh inbox store)
    unfolding new_conn
    fresh-Sound inbox store = record { frames = empty; pending = tt; reads = λ bucket key. refl }

    -- In every interleaving of the serving loop, the GET goroutines and the peer, the frames sent to
    -- the peer are control messages, and payloads that each come directly after the get_meta message
    -- with their size and their offset; the offset is not negative, and the payload is the body of an
    -- object that the store had when the connection was made.
    pub sent-Framed :
        (inbox : List Borrowed) (store : S) {t : Session S} {g : ℕ}
        → Run api limit delivers json (fresh inbox store) g t
        → Framed (Stored store) t.zc.sent
    sent-Framed inbox store r = (Run-Sound r (fresh-Sound inbox store)).frames
