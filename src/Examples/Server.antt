-- ===== src/Examples/Server.antt =====
-- internal/s3rdmaserver/zcopy/service.go on small connections: runs
use rdma_demo.Base.{
  ℕ, zero, suc, ◌+◌, ◌≤◌, ◌≡◌, refl, sym, ap, Option, none, some, List, [], ◌∷◌, arith, Bool, true,
}
use rdma_demo.Base.Int.{pos, pos_part}
use rdma_demo.Base.Text.{Str, Str-discrete}
use rdma_demo.ZcopyProto.{Message, blank, Json, decode, op_kind, op_hello_req, op_put_req}
use rdma_demo.RdmaStore.{MemoryStore}
use rdma_demo.Transport.{Borrowed}
use rdma_demo.ZcopyServer.Conn.{new_conn, recv_message, recv_control}
use rdma_demo.ZcopyServer.Handlers.{Session}
use rdma_demo.ZcopyServer.Session.{serve_round}
use rdma_demo.ZcopyServer.Flow.{payloads}
use rdma_demo.ZcopyServer.Credits.{holders}
use rdma_demo.ZcopyServer.Interleaving.{Run, here, next, serves, fresh, payloads-le-granted}
use rdma_demo.ZcopyServer.Frames.{Framed}
use rdma_demo.ZcopyServer.Delivery.{Stored, sent-Framed}
use rdma_demo.ZcopyServer.Stores.{memory_store_api}
use rdma_demo.Examples.Loaded.{loaded}

-- A hello that grants two credits.
abbrev hello : Message
hello = record (blank op_hello_req) { req_id = 1; credits = pos 2 }

abbrev pub bad_put : Message
bad_put = blank op_put_req

-- A codec for two messages: one byte stands for each.
abbrev unmarshal_byte : Str → Option Message
unmarshal_byte (suc zero ∷ []) = some hello
unmarshal_byte (suc (suc zero) ∷ []) = some bad_put
unmarshal_byte b = none

abbrev pub bytes : Json
bytes = record {
  marshal = λ m. some (1 ∷ []);
  unmarshal = unmarshal_byte;
  IsUtf8 = λ m. m ≡ hello;
  unmarshal-marshal = λ m h. (1 ∷ [], refl, ap some (sym h));
}

abbrev pub succeeds : ℕ → Bool
succeeds n = true

abbrev pub one_message : List Borrowed
one_message = record { payload = 1 ∷ []; shared_offset = pos 0 } ∷ []

abbrev start : Session MemoryStore
start = fresh one_message loaded

abbrev after_hello : Session MemoryStore
after_hello = serve_round memory_store_api (pos 0) succeeds bytes start

-- The server serves the hello.
hello-Run : Run memory_store_api (pos 0) succeeds bytes start 2 after_hello
unfolding recv_control new_conn decode op_kind recv_message op_hello_req Str-discrete
hello-Run = next here (serves start 2 refl refl) refl

payloads-le-granted_example :
    payloads after_hello.zc.sent + pos_part after_hello.zc.credits + holders after_hello.tasks ≤ 2
payloads-le-granted_example =
    payloads-le-granted memory_store_api (pos 0) succeeds bytes one_message loaded {t = after_hello}
      {g = 2} hello-Run (omega arith)

sent-Framed_example : Framed (Stored memory_store_api loaded) after_hello.zc.sent
sent-Framed_example =
    sent-Framed memory_store_api (pos 0) succeeds bytes one_message loaded {t = after_hello} {g = 2}
      hello-Run
