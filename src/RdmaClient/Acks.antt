-- ===== src/RdmaClient/Acks.antt =====
-- pkg/rdma/client/client.go: flow control over any interleaving of the calls and the receive loop
use rdma_demo.Base.{ℕ, ◌+◌, ◌≤◌, ◌≡◌, Bool, Option, some, [], ◌∷◌, ◌++◌, arith}
use rdma_demo.Base.Int.{ℤ}
use rdma_demo.Base.Text.{Str}
use rdma_demo.Base.Map.Weight.{weight}
use rdma_demo.ZcopyProto.{Message, Json}
use rdma_demo.Transport.{Borrowed}
use rdma_demo.RdmaClient.Config.{BufferRef}
use rdma_demo.RdmaClient.State.{
  Client, ClientError, remove_pending, recv_fails, recv_round, got, wait_answer, wait_context,
  new_client,
}
use rdma_demo.RdmaClient.Calls.{
  start_hello, start_ensure_bucket, start_put_zero_copy, start_get_zero_copy,
}
use rdma_demo.RdmaClient.Results.{finish_get_zero_copy, release, close}
use rdma_demo.RdmaClient.Owed.{
  brings, one, owed, start_hello-owed, start_ensure_bucket-owed, start_put-owed, start_get-owed,
}
use rdma_demo.RdmaClient.Taken.{
  takes, recv_round-owed, wait_answer-owed, finish_get-owed, release-owed, close-owed,
  recv_fails-owed,
}

module _ (delivers : ℕ → Bool) (json : Json) where
  -- A step of the client, with the payloads that it takes from the transport. A call takes its result
  -- out of its channel and deals with it in one step: no other goroutine sees what it took.
  pub data Step : Client → ℕ → Client → Type 0 where
    arrives : (c : Client) (m : Borrowed) → Step c 0 (record c { inbox = c.inbox ++ m ∷ [] })
    receives :
        (c c' : Client) (n : ℕ)
        → recv_round delivers json c ≡ some c'
        → n ≡ takes json c.inbox
        → Step c n c'
    receive_fails : (c : Client) (e : ClientError) → Step c 0 (recv_fails e c)
    starts_hello : (c : Client) → Step c 0 (start_hello delivers c).0
    starts_ensure_bucket :
        (c : Client) (bucket : Str) → Step c 0 (start_ensure_bucket delivers bucket c).0
    starts_put :
        (c : Client) (bucket key : Str) (ref : BufferRef)
        → Step c 0 (start_put_zero_copy delivers bucket key ref c).0
    starts_get :
        (c : Client) (bucket key : Str) (target_offset max_size : ℤ)
        → Step c 0 (start_get_zero_copy delivers bucket key target_offset max_size c).0
    -- hello, EnsureBucket and PutZeroCopy look at the message alone
    finishes_plain :
        (c c' : Client) (id : ℕ) (msg : Message) (b : Option Borrowed)
        → wait_answer id c ≡ (c', got msg b)
        → Step c 0 c'
    finishes_get :
        (c c' : Client) (id : ℕ) (max_size : ℤ) (msg : Message) (b : Option Borrowed)
        → wait_answer id c ≡ (c', got msg b)
        → Step c 0 (finish_get_zero_copy delivers max_size msg b c').0
    times_out : (c : Client) (id : ℕ) → Step c 0 (wait_context id c).0
    releases_ref : (c : Client) (ref : BufferRef) → Step c 0 (release delivers ref c)
    closes : (c : Client) → Step c 0 (close delivers c)

  -- A run from a state, with the payloads that it takes in all.
  pub data Run (c₀ : Client) : ℕ → Client → Type 0 where
    here : Run c₀ 0 c₀
    next : {c d : Client} {n m k : ℕ} → Run c₀ n c → Step c m d → k ≡ n + m → Run c₀ k d

  Step-owed : {c c' : Client} {n : ℕ} → Step c n c' → owed c' ≤ owed c + n
  unfolding wait_context remove_pending
  Step-owed (arrives c m) = omega arith
  Step-owed (receives c c' n h e) = omega (arith, recv_round-owed delivers json c c' h)
  Step-owed (receive_fails c e) = omega (arith, recv_fails-owed e c)
  Step-owed (starts_hello c) = omega (arith, start_hello-owed delivers c)
  Step-owed (starts_ensure_bucket c bucket) =
      omega (arith, start_ensure_bucket-owed delivers bucket c)
  Step-owed (starts_put c bucket key ref) = omega (arith, start_put-owed delivers bucket key ref c)
  Step-owed (starts_get c bucket key o max) =
      omega (arith, start_get-owed delivers bucket key o max c)
  Step-owed (finishes_plain c c' id msg b h) =
      omega (arith, wait_answer-owed delivers id c c' msg b h)
  Step-owed (finishes_get c c' id max msg b h) =
      omega
        (arith, wait_answer-owed delivers id c c' msg b h, finish_get-owed delivers max msg b c')
  Step-owed (times_out c id) = omega arith
  Step-owed (releases_ref c ref) = omega (arith, release-owed delivers ref c)
  Step-owed (closes c) = omega (arith, close-owed delivers c)

  Run-owed : {c₀ c : Client} {n : ℕ} → Run c₀ n c → owed c ≤ owed c₀ + n
  Run-owed here = omega arith
  Run-owed (next r s e) = omega (arith, Run-owed r, Step-owed s)

  -- In every interleaving of calls, releases, timeouts, close and the receive loop, from a new
  -- client on: the acknowledgements sent, the payloads held under a token and the payloads waiting
  -- in a channel are together at most the payloads received.
  pub acks-le-received :
      (shared_memory : Str) (frame_payload max_credits : ℤ) {c : Client} {n : ℕ}
      → Run (new_client shared_memory frame_payload max_credits) n c
      → c.acks + weight one c.releases + weight brings c.boxes ≤ n
  unfolding new_client
  acks-le-received shared_memory frame_payload max_credits r = omega (arith, Run-owed r)
