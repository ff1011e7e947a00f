-- ===== src/Examples/Listening.antt =====
-- pkg/rdma/verbs_linux_cgo.go: a listener with one worker
use rdma_demo.Base.{refl, false, [], ◌∷◌}
use rdma_demo.VerbsListener.{
  Listener, accepting, looping, holding, conn, new_listener, start_accept_workers, accept_worker,
}
use rdma_demo.VerbsListener.Conserved.{Reach, here, next, works, IsSound, Reach-IsSound}

abbrev ready : Listener
ready = record (new_listener 1) { workers = accepting ∷ [] }

-- The worker has accepted a connection, and it is in the channel.
abbrev accepted_one : Listener
accepted_one = record (new_listener 1) { workers = holding 0 ∷ []; accepted = 1 }

abbrev sent_one : Listener
sent_one = record accepted_one { workers = looping ∷ []; accept_out = 0 ∷ [] }

three_steps : Reach (new_listener 1) sent_one
unfolding new_listener start_accept_workers accept_worker
three_steps =
    next
      (next
        (next here
          (works (new_listener 1) [] [] looping accepting (new_listener 1) conn false refl refl))
        (works ready [] [] accepting (holding 0) (record ready { accepted = 1 }) conn false refl
          refl))
      (works accepted_one [] [] (holding 0) looping (record accepted_one { accept_out = 0 ∷ [] })
        conn false refl refl)

Reach-IsSound_example : IsSound sent_one
Reach-IsSound_example = Reach-IsSound 1 three_steps
