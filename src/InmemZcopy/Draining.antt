-- ===== src/InmemZcopy/Draining.antt =====
-- internal/inmems3/zcopy/service.go: the end of serveConn, with the GET goroutines of the closed
-- connection in any order of steps
use rdma_demo.Base.{
  ℕ, suc, ◌+◌, ◌≤◌, ◌≡◌, ◌≢◌, ◌⊎◌, refl, ap, ◌∙◌, Bool, true, Option, none, some, List, [], ◌∷◌,
  ◌++◌, arith, inl, inr, Option-cases,
}
use rdma_demo.Base.Int.{ℤ}
use rdma_demo.Base.Text.{Str}
use rdma_demo.ZcopyServer.Handlers.{GetTask, begun, waiting, holding, Session}
use rdma_demo.ZcopyServer.Flow.{payloads}
use rdma_demo.ZcopyServer.Credits.{holders, holders-append}
use rdma_demo.ZcopyServer.Interleaving.{option_list}
use rdma_demo.InmemZcopy.Conn.{ZcopyConn, wait_credit}
use rdma_demo.InmemZcopy.Handlers.{ObjectStore}
use rdma_demo.InmemZcopy.Session.{advance}
use rdma_demo.InmemZcopy.Agreement.{KeepsObjects}
use rdma_demo.InmemZcopy.Closing.{work, work-append, advance-Advanced}

module _ {S : Type 0} (api : ObjectStore S) (keeps : KeepsObjects api) (md5 : Str → Str) (limit : ℤ)
    (delivers : ℕ → Bool) where
  -- One goroutine takes a step; it may be any of them.
  pub data TaskStep : Session S → Session S → Type 0 where
    task_step :
        (t : Session S) (before after : List GetTask) (task : GetTask) (zc : ZcopyConn)
        (rest : Option GetTask)
        → t.tasks ≡ before ++ task ∷ after
        → advance api md5 limit delivers task t.zc t.store ≡ some (zc, rest)
        → TaskStep t (record t { zc = zc; tasks = before ++ (option_list rest ++ after) })

  pub data TaskRun (s : Session S) : ℕ → Session S → Type 0 where
    here : TaskRun s 0 s
    next : {n : ℕ} {t u : Session S} → TaskRun s n t → TaskStep t u → TaskRun s (suc n) u

  -- What is left after some steps of a closed connection.
  record Drained (s : Session S) (n : ℕ) (t : Session S) : Type 0 where
    closed : t.zc.closed ≡ true
    credits : t.zc.credits ≡ s.zc.credits
    bounded : n + work t.tasks ≤ work s.tasks
    sent : payloads t.zc.sent + holders t.tasks ≤ payloads s.zc.sent + holders s.tasks

  TaskStep-Drained :
      {s t u : Session S} {n : ℕ} → Drained s n t → TaskStep t u → Drained s (suc n) u
  TaskStep-Drained {s} {t} {u} {n} d (task_step _ before after task zc rest e h) =
      let a = advance-Advanced api keeps md5 limit delivers task t.zc zc t.store rest d.closed h in
      let then' = option_list rest in
      record {
        closed = a.closed ∙ d.closed;
        credits = a.credits ∙ d.credits;
        bounded = omega (
          arith,
          ap work e,
          work-append before (task ∷ after),
          work-append before (then' ++ after),
          work-append then' after,
          a.fewer,
          d.bounded,
        );
        sent = omega (
          arith,
          ap holders e,
          holders-append before (task ∷ after),
          holders-append (task ∷ []) after,
          holders-append before (then' ++ after),
          holders-append then' after,
          a.sent,
          d.sent,
        );
      }

  TaskRun-Drained : {s t : Session S} {n : ℕ} → s.zc.closed ≡ true → TaskRun s n t → Drained s n t
  TaskRun-Drained h here = record {
    closed = h;
    credits = refl;
    bounded = omega arith;
    sent = omega arith;
  }
  TaskRun-Drained h (next r st) = TaskStep-Drained (TaskRun-Drained h r) st

  -- A goroutine of a closed connection does not wait.
  advance-closed :
      (task : GetTask) (zc : ZcopyConn) (store : S)
      → zc.closed ≡ true
      → advance api md5 limit delivers task zc store ≢ none
  unfolding advance wait_credit
  advance-closed (begun msg) zc store h e = cc
  advance-closed (holding r p o) zc store h e = cc
  advance-closed (waiting r p o) zc store h e = ground arith

  step_or_done :
      (t : Session S) (l : List GetTask)
      → t.zc.closed ≡ true
      → t.tasks ≡ l
      → (t.tasks ≡ []) ⊎ ((u : Session S) × TaskStep t u)
  step_or_done t [] h e = inl e
  step_or_done t (task ∷ l) h e =
      elim (Option-cases (advance api md5 limit delivers task t.zc t.store)) [
        | inl n ↦ absurd (advance-closed task t.zc t.store h n)
        | inr ((zc, rest), s) ↦ inr (_, task_step t [] l task zc rest e s)
      ]

  -- Once the connection is closed the GET goroutines end, in whatever order they run: a run of n of
  -- their steps has at most three steps for each goroutine that had only begun, two for one that waited
  -- and one for one that held a credit, and after it no goroutine is left or one can take a step.
  pub closed_goroutines_end :
      (s t : Session S) (n : ℕ)
      → s.zc.closed ≡ true
      → TaskRun s n t
      → (n + work t.tasks ≤ work s.tasks) × ((t.tasks ≡ []) ⊎ ((u : Session S) × TaskStep t u))
  closed_goroutines_end s t n h r =
      let d = TaskRun-Drained h r in (d.bounded, step_or_done t t.tasks d.closed refl)

  -- Once the connection is closed no goroutine takes a credit, and only those that held one before send
  -- a payload, each one at most.
  pub closed_goroutines_sent :
      (s t : Session S) (n : ℕ)
      → s.zc.closed ≡ true
      → TaskRun s n t
      → (t.zc.credits ≡ s.zc.credits)
        × (payloads t.zc.sent + holders t.tasks ≤ payloads s.zc.sent + holders s.tasks)
  closed_goroutines_sent s t n h r = let d = TaskRun-Drained h r in (d.credits, d.sent)
