-- ===== src/Examples/Zcopy.antt =====
-- internal/inmems3/zcopy/service.go over internal/inmems3/store/store.go on small connections
use rdma_demo.Base.{◌+◌, ◌≤◌, ◌≡◌, refl, ◌⊎◌, true, none, [], ◌∷◌}
use rdma_demo.Base.Int.{pos}
use rdma_demo.InmemStore.State.{MemoryStore, fifo, new_memory_store, create_bucket, get_object}
use rdma_demo.InmemStore.Insertion.{get_object-create_bucket}
use rdma_demo.ZcopyServer.Flow.{payloads}
use rdma_demo.ZcopyServer.Credits.{holders}
use rdma_demo.ZcopyServer.Interleaving.{fresh}
use rdma_demo.ZcopyServer.Handlers.{Session, waiting, holding}
use rdma_demo.ZcopyServer.Conn.{new_conn}
use rdma_demo.ZcopyServer.Session.{serve_round}
use rdma_demo.InmemZcopy.Conn.{wait_credit}
use rdma_demo.InmemZcopy.Handlers.{ObjectStore}
use rdma_demo.InmemZcopy.Session.{serve_once, advance}
use rdma_demo.InmemZcopy.Agreement.{KeepsObjects, adapted}
use rdma_demo.InmemZcopy.Rounds.{serve_once-serve_round}
use rdma_demo.InmemZcopy.Closing.{work}
use rdma_demo.InmemZcopy.Draining.{
  TaskStep, task_step, TaskRun, here, next, closed_goroutines_end, closed_goroutines_sent,
}
use rdma_demo.Examples.Loaded.{same_md5, abc}
use rdma_demo.Examples.Server.{bytes, one_message, succeeds}

abbrev store : MemoryStore
store = new_memory_store (pos 10) fifo

abbrev api : ObjectStore MemoryStore
api = record { create_bucket = create_bucket; get_object = get_object }

api_keeps : KeepsObjects api
api_keeps = λ name s bucket key. get_object-create_bucket name bucket key s

-- A connection on which a hello has arrived.
abbrev start : Session MemoryStore
start = fresh one_message store

serve_once-serve_round_example :
    serve_once api same_md5 (pos 0) succeeds bytes start
    ≡ serve_round (adapted api api_keeps) (pos 0) succeeds bytes start
serve_once-serve_round_example =
    serve_once-serve_round api api_keeps same_md5 (pos 0) succeeds bytes start

-- A closed connection with a GET that waits for a credit and one that has it.
abbrev closed : Session MemoryStore
closed = record start {
  zc = record start.zc { closed = true; inbox = [] };
  tasks = waiting 1 abc (pos 0) ∷ holding 2 abc (pos 3) ∷ [];
}

-- The one that waits ends.
abbrev one_ended : Session MemoryStore
one_ended = record closed { tasks = holding 2 abc (pos 3) ∷ [] }

first_ends : TaskStep api api_keeps same_md5 (pos 0) succeeds closed one_ended
unfolding advance wait_credit new_conn
first_ends =
    task_step closed [] (holding 2 abc (pos 3) ∷ []) (waiting 1 abc (pos 0)) closed.zc none refl
      refl

one_step : TaskRun api api_keeps same_md5 (pos 0) succeeds closed 1 one_ended
one_step = next here first_ends

closed_goroutines_end_example :
    (1 + work one_ended.tasks ≤ work closed.tasks)
    × ((one_ended.tasks ≡ [])
        ⊎ ((u : Session MemoryStore) × TaskStep api api_keeps same_md5
              (pos 0)
              succeeds
              one_ended
              u))
closed_goroutines_end_example =
    closed_goroutines_end api api_keeps same_md5 (pos 0) succeeds closed one_ended 1 refl one_step

closed_goroutines_sent_example :
    (one_ended.zc.credits ≡ closed.zc.credits)
    × (payloads one_ended.zc.sent + holders one_ended.tasks
        ≤ payloads closed.zc.sent + holders closed.tasks)
closed_goroutines_sent_example =
    closed_goroutines_sent api api_keeps same_md5 (pos 0) succeeds closed one_ended 1 refl one_step
