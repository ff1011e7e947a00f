-- ===== src/RdmaApi/Handler.antt =====
-- internal/s3rdmaserver/s3api/handler.go: the handler of HTTP requests over its interface Store.
-- `md5` stands for the hash and `now` for time.Now().UTC(). The atomic counter of request ids wraps.
use rdma_demo.Base.{
  ℕ, ◌+◌, ◌%◌, ◌^◌, length, Bool, Option, none, some, List, [], ◌∷◌, if◌then◌else◌,
}
use rdma_demo.Base.Int.{ℤ}
use rdma_demo.Base.Text.{Str, codes, decimal, is_empty, str_eq}
use rdma_demo.RdmaStore.{Object, ListedObject}
use rdma_demo.S3Api.Routing.{slash, max_keys_of}
use rdma_demo.S3Api.Handler.{Request, get, head, put, delete, other}
use rdma_demo.RdmaApi.Paths.{SplitPath, at_path, bad_path, split_bucket_and_key}
use rdma_demo.RdmaApi.Uploads.{Consumed, complete, consume_body}
use rdma_demo.RdmaApi.Replies.{
  Reply, write_header, write_xml, write_s3_error, list_reply, write_list_buckets, create_document,
  method_not_allowed, no_such_bucket, no_such_key, invalid_uri, invalid_request,
}

-- The interface Store, over the states of a store.
pub record Store (S : Type 0) : Type 0 where
  pub create_bucket : Str → S → S
  pub bucket_exists : Str → S → Bool
  pub delete_bucket : Str → S → S × Bool
  pub get_object : Str → Str → S → Option Object
  pub delete_object : Str → Str → S → S × Bool
  pub list_objects : Str → Str → S → Option (List ListedObject)
  pub list_buckets : S → List Str

pub record Handler (S : Type 0) : Type 0 where
  pub store : S
  pub region : Str
  pub max_object_size : ℤ
  pub request_id : ℕ

unfoldable pub new_handler : {S : Type 0} → S → Str → ℤ → Handler S
new_handler store region max_object_size = record {
  store = store;
  region = region;
  max_object_size = max_object_size;
  request_id = 0;
}

-- What ServeHTTP writes: the headers that every answer has, and the rest.
pub record Served : Type 0 where
  pub request_id : Str
  pub id_2 : Str
  pub bucket_region : Str
  pub reply : Reply

-- The headers of an object.
abbrev pub object_headers : Object → Reply
object_headers obj = record (write_header 200) {
  etag = some obj.etag;
  content_length = some (length obj.body);
  last_modified = some obj.last_modified;
}

module _ {S : Type 0} (api : Store S) where
  unfoldable pub handle_bucket : Request → Str → Str → S → S × Reply
  unfolding write_xml write_s3_error list_reply
  handle_bucket r req_id bucket s = elim r.method [
    | put ↦ (
      api.create_bucket bucket s,
      write_xml 200 (create_document (record { location = slash ∷ bucket })),
    )
    | head ↦ (
      s,
      if api.bucket_exists bucket s
          then write_header 200
          else write_s3_error 404 req_id no_such_bucket bucket [],
    )
    | get ↦ (
      s,
      elim (api.list_objects bucket r.prefix s) [
        | none ↦ write_s3_error 404 req_id no_such_bucket bucket []
        | some objects ↦ list_reply bucket r.prefix (max_keys_of r.max_keys) objects
      ],
    )
    | delete ↦
        let (s', was_there) = api.delete_bucket bucket s in
        (
          s',
          if was_there
              then write_header 204
              else write_s3_error 404 req_id no_such_bucket bucket [],
        )
    | other m ↦ (s, write_s3_error 405 req_id method_not_allowed bucket [])
  ]

  -- a PUT of an object, with what consumeBody returns
  unfoldable pub put_reply : Consumed → Str → Str → Str → S → S × Reply
  unfolding write_s3_error
  put_reply (complete result) req_id bucket key s =
      (api.create_bucket bucket s, record (write_header 200) { etag = some result.etag })
  put_reply failure req_id bucket key s =
      (s, write_s3_error 400 req_id (invalid_request failure) bucket key)

  unfoldable pub handle_object : (Str → Str) → ℤ → Request → Str → Str → Str → S → S × Reply
  unfolding write_s3_error put_reply
  handle_object md5 max_object_size r req_id bucket key s = elim r.method [
    | put ↦ put_reply (consume_body md5 max_object_size r.body) req_id bucket key s
    | get ↦ (
      s,
      elim (api.get_object bucket key s) [
        | none ↦ write_s3_error 404 req_id no_such_key bucket key
        | some obj ↦ record (object_headers obj) { bytes = obj.body }
      ],
    )
    | head ↦ (
      s,
      elim (api.get_object bucket key s) [
        | none ↦ write_s3_error 404 req_id no_such_key bucket key
        | some obj ↦ object_headers obj
      ],
    )
    | delete ↦ ((api.delete_object bucket key s).0, write_header 204)
    | other m ↦ (s, write_s3_error 405 req_id method_not_allowed bucket key)
  ]

  -- `GET /`
  unfoldable pub handle_root : ℕ → Request → Str → S → S × Reply
  unfolding write_list_buckets write_s3_error
  handle_root now r req_id s = elim r.method [
    | get ↦ (s, write_list_buckets now (api.list_buckets s))
    | _ ↦ (s, write_s3_error 405 req_id method_not_allowed [] [])
  ]

  unfoldable pub handle_path : (Str → Str) → ℤ → Request → Str → SplitPath → S → S × Reply
  unfolding handle_bucket handle_object write_s3_error
  handle_path md5 max_object_size r req_id (bad_path e) s =
      (s, write_s3_error 400 req_id (invalid_uri e) [] [])
  handle_path md5 max_object_size r req_id (at_path bucket key) s =
      if is_empty key
      then handle_bucket r req_id bucket s
      else handle_object md5 max_object_size r req_id bucket key s

  -- ServeHTTP
  unfoldable pub serve_http : (Str → Str) → ℕ → Request → Handler S → Handler S × Served
  unfolding handle_root handle_path
  serve_http md5 now r h =
      let count = (h.request_id + 1) % 2 ^ 64 in
      let req_id = decimal count in
      let (s', reply) =
        if str_eq r.path (slash ∷ [])
        then handle_root now r req_id h.store
        else handle_path md5 h.max_object_size r req_id (split_bucket_and_key r.path) h.store in
      (
        record h { store = s'; request_id = count },
        record {
          request_id = req_id;
          id_2 = codes "s3-rdma-server";
          bucket_region = h.region;
          reply = reply;
        },
      )
