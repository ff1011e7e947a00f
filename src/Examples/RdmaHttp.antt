-- ===== src/Examples/RdmaHttp.antt =====
-- internal/s3rdmaserver/s3api/handler.go over internal/s3rdmaserver/store/store.go on small requests
use rdma_demo.Base.{◌≡◌, refl, [], ◌∷◌, ◌++◌, none, ite}
use rdma_demo.Base.Int.{pos}
use rdma_demo.Base.Text.{Str, Str-discrete, index_byte}
use rdma_demo.Ingest.{at_end}
use rdma_demo.RdmaStore.{MemoryStore, get_object}
use rdma_demo.S3Api.Routing.{slash, trim_slash, unescape, split_slash}
use rdma_demo.S3Api.Handler.{Request, get, delete}
use rdma_demo.RdmaApi.Paths.{split_bucket_and_key, at_path}
use rdma_demo.RdmaApi.Replies.{write_header}
use rdma_demo.RdmaApi.Handler.{Handler, new_handler}
use rdma_demo.RdmaApi.Sequences.{after, reply_to, delete_get_object}
use rdma_demo.RdmaApi.Stores.{loaded_store, loaded_store_laws}
use rdma_demo.Examples.Loaded.{same_md5, bucket_b, key_k, abc, loaded}

abbrev handler : Handler MemoryStore
handler = new_handler loaded [] (pos 10)

abbrev object_request : Request
object_request = record {
  method = get;
  path = slash ∷ (bucket_b ++ slash ∷ key_k);
  prefix = [];
  max_keys = [];
  body = at_end abc;
}

abbrev bucket_request : Request
bucket_request = record object_request { path = slash ∷ bucket_b }

object_path : split_bucket_and_key object_request.path ≡ at_path bucket_b key_k
unfolding split_bucket_and_key trim_slash unescape split_slash index_byte
object_path = refl

delete_get_object_example :
    (reply_to loaded_store same_md5 delete 8 object_request handler ≡ write_header 204)
    × ((reply_to loaded_store same_md5 get 9 object_request
          (after loaded_store same_md5 delete 8 object_request handler)).status
        ≡ 404)
    × ((bucket' key' : Str)
        → get_object bucket' key'
            (after loaded_store same_md5 delete 8 object_request handler).store
          ≡ ite
              (Str-discrete bucket_b bucket')
              (ite (Str-discrete key_k key') none (get_object bucket' key' handler.store))
              (get_object bucket' key' handler.store))
delete_get_object_example =
    delete_get_object loaded_store loaded_store_laws same_md5 8 9 object_request bucket_b 107 []
      handler object_path
