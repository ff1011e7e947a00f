-- ===== src/Examples/Requests.antt =====
-- internal/s3rdmaserver/zcopy/service.go on small connections: single requests
use rdma_demo.Base.{◌≡◌, ◌≢◌, refl, ◌⊎◌, ◌↔◌, none, some, [], ◌∷◌, ◌++◌, false, arith}
use rdma_demo.Base.Int.{negsuc, pos, ◌≤ℤ◌}
use rdma_demo.Base.Text.{Str-discrete, trim_space}
use rdma_demo.ZcopyProto.{
  op_get_req, Message, blank, ok, decode, put_req, op_kind, op_hello_req, op_hello_resp,
  op_ensure_bucket_req, op_put_req,
}
use rdma_demo.RdmaStore.{MemoryStore}
use rdma_demo.Transport.{Borrowed}
use rdma_demo.ZcopyServer.Conn.{ZcopyConn, done, new_conn, send_frame, send_control, send_resp_err}
use rdma_demo.ZcopyServer.Handlers.{
  begun, check_get, Session, put_refused, put_accepted, check_put, act_put, handle_put,
  missing_req_id,
}
use rdma_demo.ZcopyServer.Session.{serve_round}
use rdma_demo.ZcopyServer.Interleaving.{fresh}
use rdma_demo.ZcopyServer.Requests.{check_put-accepted}
use rdma_demo.ZcopyServer.Answers.{Answered, answer_op, handle_put-Answered, refused_put-stops}
use rdma_demo.ZcopyServer.Gets.{alone, answer, credits_after, get_alone_lem}
use rdma_demo.ZcopyServer.Stores.{memory_store_api}
use rdma_demo.Examples.Loaded.{bucket_b, key_k, abc, loaded}
use rdma_demo.Examples.Server.{bad_put, bytes, succeeds}

-- A PUT of five bytes at offset 0.
abbrev five_put : Message
five_put = record (blank op_put_req) {
  req_id = 4;
  bucket = bucket_b;
  key = key_k;
  size = pos 5;
  data_offset = some (pos 0);
}

check_put-accepted_example :
    (check_put (pos 0) five_put ≡ put_accepted bucket_b (pos 5) (pos 0)) ↔ (
      (five_put.req_id ≢ 0)
      × (trim_space five_put.bucket ≢ [])
      × (trim_space five_put.key ≢ [])
      × (pos 0 ≤ℤ five_put.size)
      × ((pos 0 ≤ℤ pos 0) ⊎ (five_put.size ≤ℤ pos 0))
      × (bucket_b ≡ trim_space five_put.bucket)
      × (pos 5 ≡ five_put.size)
      × (five_put.data_offset ≡ some (pos 0)))
check_put-accepted_example = check_put-accepted (pos 0) five_put bucket_b (pos 5) (pos 0)

abbrev granted_conn : ZcopyConn
granted_conn = record (new_conn []) { credits = pos 2 }

-- A GET of an object that is there, with a negative offset.
abbrev negative_get : Message
negative_get = record (blank op_get_req) {
  req_id = 5;
  bucket = bucket_b;
  key = key_k;
  data_offset = some (negsuc 0);
}

get_alone_lem_example :
    let result =
      alone memory_store_api (pos 0) succeeds 3 (begun negative_get) granted_conn loaded in
    (result.1 ≡ none)
    × (result.0.sent
        ≡ granted_conn.sent ++ answer 5 (check_get memory_store_api negative_get loaded))
    × (result.0.credits
        ≡ credits_after (check_get memory_store_api negative_get loaded) granted_conn.credits)
get_alone_lem_example =
    get_alone_lem memory_store_api (pos 0) succeeds (λ n. refl) negative_get granted_conn loaded
      (omega arith)

refusal : check_put (pos 0) bad_put ≡ put_refused 0 missing_req_id
unfolding check_put
refusal = refl

answered_put : (handle_put memory_store_api succeeds (pos 0) bad_put granted_conn loaded).2 ≡ done
unfolding handle_put check_put act_put send_resp_err send_control send_frame
answered_put = refl

handle_put-Answered_example :
    Answered granted_conn
      (handle_put memory_store_api succeeds (pos 0) bad_put granted_conn loaded).0
      0
      (answer_op (check_put (pos 0) bad_put))
handle_put-Answered_example =
    handle_put-Answered memory_store_api succeeds (pos 0) bad_put granted_conn loaded answered_put

abbrev put_arrives : Borrowed
put_arrives = record { payload = 2 ∷ []; shared_offset = pos 0 }

abbrev payload_arrives : Borrowed
payload_arrives = record { payload = abc; shared_offset = pos 0 }

abbrev two_arrived : Session MemoryStore
two_arrived = fresh (put_arrives ∷ payload_arrives ∷ []) loaded

decoded_put : decode bytes (2 ∷ []) ≡ ok bad_put
unfolding decode op_put_req
decoded_put = refl

is_put : op_kind op_put_req ≡ put_req
unfolding op_kind op_put_req Str-discrete op_hello_req op_hello_resp op_ensure_bucket_req
is_put = refl

arrived_lem : two_arrived.zc.inbox ≡ put_arrives ∷ payload_arrives ∷ []
unfolding new_conn
arrived_lem = refl

refused_put-stops_example :
    (serve_round memory_store_api
      (pos 0)
      succeeds
      bytes
      (serve_round memory_store_api (pos 0) succeeds bytes two_arrived)).running
    ≡ false
refused_put-stops_example =
    refused_put-stops memory_store_api (pos 0) succeeds bytes two_arrived put_arrives
      payload_arrives [] bad_put 0 missing_req_id arrived_lem decoded_put is_put refusal refl
