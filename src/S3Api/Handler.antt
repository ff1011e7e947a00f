-- ===== src/S3Api/Handler.antt =====
-- internal/inmems3/s3api/handler.go: the handler of HTTP requests, over the store of
-- internal/inmems3/store/store.go. A response is what is written to the http.ResponseWriter; the XML
-- encoding and the constant headers are left out.
use rdma_demo.Base.{
  ℕ, Bool, Option, none, some, List, [], ◌∷◌, map, length, take, ltb, if◌then◌else◌,
}
use rdma_demo.Base.Int.{ℤ}
use rdma_demo.Base.Text.{Str, is_empty, str_eq}
use rdma_demo.Ingest.{Body, Ingested, consumed, consume_reader}
use rdma_demo.InmemStore.State.{
  Object, ListedObject, MemoryStore, create_bucket, bucket_exists, get_object,
}
use rdma_demo.InmemStore.Methods.{delete_bucket, delete_object, list_objects, list_buckets}
use rdma_demo.S3Api.Routing.{
  slash, SplitPath, PathError, at_path, bad_path, split_bucket_and_key, max_keys_of,
}

pub data Method : Type 0 where
  get head put delete : Method
  other : Str → Method

-- A request, with the parameters prefix and max-keys of its query, empty if they are missing.
pub record Request : Type 0 where
  pub method : Method
  pub path : Str
  pub prefix : Str
  pub max_keys : Str
  pub body : Body

pub data ErrorCode : Type 0 where
  method_not_allowed no_such_bucket no_such_key : ErrorCode
  invalid_uri : PathError → ErrorCode
  invalid_request : Ingested → ErrorCode

pub record ListContent : Type 0 where
  pub key : Str
  pub last_modified : ℕ
  pub etag : Str
  pub size : ℕ

pub record ListResult : Type 0 where
  pub name : Str
  pub prefix : Str
  pub key_count : ℕ
  pub max_keys : ℕ
  pub is_truncated : Bool
  pub contents : List ListContent

pub data Xml : Type 0 where
  s3_error : ErrorCode → Str → Str → Xml
  create_bucket_result : Str → Xml
  list_bucket_result : ListResult → Xml
  list_all_my_buckets_result : List Str → Xml

pub record Response : Type 0 where
  pub status : ℕ
  pub etag : Option Str
  pub content_length : Option ℕ
  pub last_modified : Option ℕ
  pub xml : Option Xml
  pub bytes : Str

-- A response with a status alone.
abbrev pub status_only : ℕ → Response
status_only status = record {
  status = status;
  etag = none;
  content_length = none;
  last_modified = none;
  xml = none;
  bytes = [];
}

unfoldable pub write_xml : ℕ → Xml → Response
write_xml status v = record (status_only status) { xml = some v }

unfoldable pub write_s3_error : ℕ → ErrorCode → Str → Str → Response
unfolding write_xml
write_s3_error status code bucket key = write_xml status (s3_error code bucket key)

unfoldable pub list_content : ListedObject → ListContent
list_content obj = record {
  key = obj.key;
  last_modified = obj.object.last_modified;
  etag = obj.object.etag;
  size = length obj.object.body;
}

-- The listing once the objects are there.
unfoldable pub list_page : Str → Str → ℕ → List ListedObject → ListResult
unfolding list_content
list_page bucket prefix max_keys objects =
    let truncated = ltb max_keys (length objects) in
    let contents = map list_content (if truncated then take max_keys objects else objects) in
    record {
      name = bucket;
      prefix = prefix;
      key_count = length contents;
      max_keys = max_keys;
      is_truncated = truncated;
      contents = contents;
    }

unfoldable pub handle_bucket : Request → Str → MemoryStore → MemoryStore × Response
unfolding write_xml write_s3_error list_page max_keys_of
handle_bucket r bucket s = elim r.method [
  | put ↦ (create_bucket bucket s, write_xml 200 (create_bucket_result (slash ∷ bucket)))
  | head ↦ (
    s,
    if bucket_exists bucket s then status_only 200 else write_s3_error 404 no_such_bucket bucket [],
  )
  | get ↦ (
    s,
    elim (list_objects bucket r.prefix s) [
      | none ↦ write_s3_error 404 no_such_bucket bucket []
      | some objects ↦
          write_xml 200
            (list_bucket_result (list_page bucket r.prefix (max_keys_of r.max_keys) objects))
    ],
  )
  | delete ↦
      let (s', was_there) = delete_bucket bucket s in
      (s', if was_there then status_only 204 else write_s3_error 404 no_such_bucket bucket [])
  | other m ↦ (s, write_s3_error 405 method_not_allowed bucket [])
]

-- The headers of an object.
abbrev pub object_headers : Object → Response
object_headers obj = record (status_only 200) {
  etag = some obj.etag;
  content_length = some (length obj.body);
  last_modified = some obj.last_modified;
}

-- a PUT of an object, with what ConsumeReader returns
unfoldable pub put_reply : Ingested → Str → Str → MemoryStore → MemoryStore × Response
unfolding write_s3_error
put_reply (consumed result) bucket key s =
    (create_bucket bucket s, record (status_only 200) { etag = some result.etag })
put_reply failure bucket key s = (s, write_s3_error 400 (invalid_request failure) bucket key)

unfoldable pub handle_object :
    (Str → Str) → ℤ → Request → Str → Str → MemoryStore → MemoryStore × Response
unfolding write_s3_error put_reply
handle_object md5 max_object_size r bucket key s = elim r.method [
  | put ↦ put_reply (consume_reader md5 max_object_size r.body) bucket key s
  | get ↦ (
    s,
    elim (get_object bucket key s) [
      | none ↦ write_s3_error 404 no_such_key bucket key
      | some obj ↦ record (object_headers obj) { bytes = obj.body }
    ],
  )
  | head ↦ (
    s,
    elim (get_object bucket key s) [
      | none ↦ write_s3_error 404 no_such_key bucket key
      | some obj ↦ object_headers obj
    ],
  )
  | delete ↦ ((delete_object bucket key s).0, status_only 204)
  | other m ↦ (s, write_s3_error 405 method_not_allowed bucket key)
]

unfoldable pub write_list_buckets : MemoryStore → Response
unfolding write_xml
write_list_buckets s = write_xml 200 (list_all_my_buckets_result (list_buckets s))

-- `GET /`
unfoldable pub serve_root : Request → MemoryStore → MemoryStore × Response
unfolding write_list_buckets write_s3_error
serve_root r s = elim r.method [
  | get ↦ (s, write_list_buckets s)
  | _ ↦ (s, write_s3_error 405 method_not_allowed [] [])
]

unfoldable pub serve_path :
    (Str → Str) → ℤ → Request → SplitPath → MemoryStore → MemoryStore × Response
unfolding handle_bucket handle_object write_s3_error
serve_path md5 max_object_size r (bad_path e) s = (s, write_s3_error 400 (invalid_uri e) [] [])
serve_path md5 max_object_size r (at_path bucket key) s =
    if is_empty key
    then handle_bucket r bucket s
    else handle_object md5 max_object_size r bucket key s

-- ServeHTTP
unfoldable pub serve_http : (Str → Str) → ℤ → Request → MemoryStore → MemoryStore × Response
unfolding serve_root serve_path
serve_http md5 max_object_size r s =
    if str_eq r.path (slash ∷ [])
    then serve_root r s
    else serve_path md5 max_object_size r (split_bucket_and_key r.path) s
