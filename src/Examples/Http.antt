-- ===== src/Examples/Http.antt =====
-- internal/inmems3/s3api/handler.go, internal/inmems3/ingest/put.go and pkg/rdma/verbs.go on small
-- inputs
use rdma_demo.Base.{◌≡◌, ◌≢◌, ◌↔◌, refl, [], ◌∷◌, ◌++◌, length, true, arith}
use rdma_demo.Base.Int.{pos}
use rdma_demo.Ingest.{
  Body, at_end, gives, consumed, consume_reader, result_for_bytes, content, ends, Within,
  consume_reader_lem,
}
use rdma_demo.Verbs.{
  VerbsOptions, VerbsConfig, config, chosen, with_memory, normalize, IsUsable, normalize-IsUsable,
}
use rdma_demo.InmemStore.State.{fifo, get_object}
use rdma_demo.InmemStore.Invariant.{IsValid}
use rdma_demo.S3Api.Routing.{slash, percent, split_bucket_and_key, bad_path, invalid_key_path}
use rdma_demo.S3Api.Handler.{Request, delete, serve_http}
use rdma_demo.S3Api.Paths.{split_bucket_and_key-percent}
use rdma_demo.S3Api.Replies.{after_request, serve_http_lem}
use rdma_demo.Examples.Stores.{one_object, one_object-IsValid}
use rdma_demo.Examples.Loaded.{same_md5, bucket_b, key_k, abc}

-- A body of three bytes in two reads.
abbrev two_reads : Body
two_reads = gives (97 ∷ []) (at_end (98 ∷ 99 ∷ []))

consume_reader_lem_example :
    (consume_reader same_md5 (pos 3) two_reads ≡ consumed (result_for_bytes same_md5 abc)) ↔ (
      (ends two_reads ≡ true)
      × Within (pos 3) (length (content two_reads))
      × (result_for_bytes same_md5 abc ≡ result_for_bytes same_md5 (content two_reads)))
consume_reader_lem_example =
    consume_reader_lem same_md5 (pos 3) two_reads (result_for_bytes same_md5 abc) (omega arith)

abbrev low_cpu_options : VerbsOptions
low_cpu_options = record {
  frame_payload_size = pos 2;
  send_queue_depth = pos 0;
  recv_queue_depth = pos 8;
  inline_threshold = pos 0;
  low_cpu = true;
  send_signal_interval = pos 0;
  shared_rw_memory = abc;
}

abbrev low_cpu_config : VerbsConfig
low_cpu_config = record {
  frame_payload_size = pos 2;
  send_queue_depth = pos 64;
  recv_queue_depth = pos 8;
  inline_threshold = pos 0;
  send_signal_intvl = pos 16;
  low_cpu = true;
  shared_rw_memory = abc;
}

normalized : normalize low_cpu_options ≡ config low_cpu_config
unfolding normalize with_memory chosen
normalized = refl

normalize-IsUsable_example : IsUsable low_cpu_config
normalize-IsUsable_example = normalize-IsUsable low_cpu_options low_cpu_config normalized

abbrev delete_request : Request
delete_request = record {
  method = delete;
  path = slash ∷ 98 ∷ slash ∷ 107 ∷ [];
  prefix = [];
  max_keys = [];
  body = two_reads;
}

serve_http_lem_example :
    IsValid (serve_http same_md5 (pos 0) delete_request (one_object fifo)).0
    × (get_object bucket_b key_k (serve_http same_md5 (pos 0) delete_request (one_object fifo)).0
        ≡ after_request delete
            (split_bucket_and_key delete_request.path)
            bucket_b
            key_k
            (get_object bucket_b key_k (one_object fifo)))
serve_http_lem_example =
    serve_http_lem same_md5 (pos 0) delete_request (one_object fifo) bucket_b key_k
      (one_object-IsValid fifo) (omega arith)

bucket-not-empty : bucket_b ≢ []
bucket-not-empty = λ e. ground arith

split_bucket_and_key-percent_example :
    split_bucket_and_key (slash ∷ (bucket_b ++ slash ∷ (key_k ++ percent ∷ [])))
    ≡ bad_path invalid_key_path
split_bucket_and_key-percent_example =
    split_bucket_and_key-percent bucket_b key_k bucket-not-empty ((λ e. omega (arith, e)), tt)
      ((λ e. omega (arith, e)), tt) ((λ e. omega (arith, e)), tt)
