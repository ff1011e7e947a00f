-- ===== src/RdmaApi/Stores.antt =====
-- internal/s3rdmaserver/s3api/handler.go over internal/s3rdmaserver/store/store.go: the loaded store
-- behind the interface of the handler, and the listing of a bucket from end to end
use rdma_demo.Base.{Bool, false, Option, none, some, List, [], ◌∷◌, ite}
use rdma_demo.Base.Text.{Str, Str-discrete}
use rdma_demo.RdmaStore.{
  Object, MemoryStore, create_bucket, bucket_exists, delete_bucket, get_object, delete_object,
  list_objects, list_buckets,
}
use rdma_demo.RdmaStore.Reads.{
  get_object-create_bucket, get_object-delete_object, bucket_exists_lem,
}
use rdma_demo.RdmaApi.Replies.{ListContent, Document, list_document, list_content}
use rdma_demo.RdmaApi.Handler.{Store, Handler}
use rdma_demo.RdmaApi.Requests.{StoreLaws}

abbrev pub loaded_store : Store MemoryStore
loaded_store = record {
  create_bucket = create_bucket;
  bucket_exists = bucket_exists;
  delete_bucket = delete_bucket;
  get_object = get_object;
  delete_object = delete_object;
  list_objects = list_objects;
  list_buckets = list_buckets;
}

pub loaded_store_laws : StoreLaws loaded_store
loaded_store_laws = record {
  get-create = get_object-create_bucket;
  get-delete = get_object-delete_object;
  exists-create = λ name s bucket. (bucket_exists_lem name s bucket).0;
  exists-delete = λ name s bucket. (bucket_exists_lem name s bucket).1;
}

-- The entry of a page for a key, and the entry that describes an object.
abbrev pub find_content : Str → List ListContent → Option ListContent
find_content key [] = none
find_content key (x ∷ l) = ite (Str-discrete x.key key) (some x) (find_content key l)

abbrev pub content_of : Str → Option Object → Option ListContent
content_of key none = none
content_of key (some o) = some (list_content (record { key = key; object = o }))

-- The entries of a reply that is a listing, and whether it is cut off.
abbrev pub contents_of : Option Document → List ListContent
contents_of (some (list_document r)) = r.contents
contents_of other = []

abbrev pub cut_off : Option Document → Bool
cut_off (some (list_document r)) = r.is_truncated
cut_off other = false
