-- ===== src/RdmaApi/Requests.antt =====
-- internal/s3rdmaserver/s3api/handler.go: what a request does to a store that keeps the laws of its
-- interface, and what it is answered
use rdma_demo.Base.{
  ℕ, ◌+◌, ◌%◌, ◌^◌, ◌≡◌, ◌≢◌, refl, ap, true, false, none, [], ◌∷◌, arith, ite, if◌then◌else◌,
  if-elim,
}
use rdma_demo.Base.Int.{ℤ}
use rdma_demo.Base.Text.{Str, Str-discrete, is_empty, str_eq, decimal, trim_space}
use rdma_demo.S3Api.Routing.{slash, trim_slash}
use rdma_demo.S3Api.Handler.{Method, Request, get, head, put, delete, other}
use rdma_demo.RdmaApi.Paths.{SplitPath, at_path, bad_path, missing_bucket, split_bucket_and_key}
use rdma_demo.RdmaApi.Uploads.{Consumed, complete, object_too_large, body_failed, consume_body}
use rdma_demo.RdmaApi.Replies.{Reply}
use rdma_demo.RdmaApi.Handler.{
  Store, Handler, handle_bucket, put_reply, handle_object, handle_root, handle_path, serve_http,
}

-- What the handler relies on.
pub record StoreLaws {S : Type 0} (api : Store S) : Type 0 where
  pub get-create :
      (name : Str) (s : S) (bucket key : Str)
      → api.get_object bucket key (api.create_bucket name s) ≡ api.get_object bucket key s
  pub get-delete :
      (bucket key : Str) (s : S) (bucket' key' : Str)
      → api.get_object bucket' key' (api.delete_object bucket key s).0
        ≡ ite
            (Str-discrete bucket bucket')
            (ite (Str-discrete key key') none (api.get_object bucket' key' s))
            (api.get_object bucket' key' s)
  pub exists-create :
      (name : Str) (s : S) (bucket : Str)
      → api.bucket_exists bucket (api.create_bucket name s)
        ≡ ite
            (Str-discrete name bucket)
            (if is_empty (trim_space name) then api.bucket_exists bucket s else true)
            (api.bucket_exists bucket s)
  pub exists-delete :
      (name : Str) (s : S) (bucket : Str)
      → api.bucket_exists bucket (api.delete_bucket name s).0
        ≡ ite (Str-discrete name bucket) false (api.bucket_exists bucket s)

split_bucket_and_key_root : split_bucket_and_key (slash ∷ []) ≡ bad_path missing_bucket
unfolding split_bucket_and_key trim_slash
split_bucket_and_key_root = refl

-- A path that names a bucket is not the root.
at_path-not_root :
    (path bucket key : Str)
    → split_bucket_and_key path ≡ at_path bucket key
    → str_eq path (slash ∷ []) ≡ false
at_path-not_root path bucket key e =
    ground (arith, split_bucket_and_key_root, ap split_bucket_and_key {x = path} {y = slash ∷ []})

-- The id of the next request.
abbrev pub next_id : {S : Type 0} → Handler S → Str
next_id h = decimal ((h.request_id + 1) % 2 ^ 64)

module _ {S : Type 0} (api : Store S) (laws : StoreLaws api) (md5 : Str → Str) where
  -- Every object reads as before.
  abbrev SameObjects : S → S → Type 0
  SameObjects s s' = (bucket key : Str) → api.get_object bucket key s' ≡ api.get_object bucket key s

  abbrev same : (s : S) → SameObjects s s
  same s bucket key = refl

  handle_bucket-same :
      (m : Method) (r : Request) (req_id bucket : Str) (s : S)
      → r.method ≡ m
      → m ≢ delete
      → SameObjects s (handle_bucket api r req_id bucket s).0
  unfolding handle_bucket
  handle_bucket-same put r req_id bucket s e ne = rw (e, handle_bucket) (laws.get-create bucket s)
  handle_bucket-same head r req_id bucket s e ne = rw (e, handle_bucket) (same s)
  handle_bucket-same get r req_id bucket s e ne = rw (e, handle_bucket) (same s)
  handle_bucket-same (other m) r req_id bucket s e ne = rw (e, handle_bucket) (same s)
  handle_bucket-same delete r req_id bucket s e ne = absurd (ne refl)

  put_reply-same :
      (c : Consumed) (req_id bucket key : Str) (s : S)
      → SameObjects s (put_reply api c req_id bucket key s).0
  unfolding put_reply
  put_reply-same (complete result) req_id bucket key s = laws.get-create bucket s
  put_reply-same (object_too_large a b) req_id bucket key s = same s
  put_reply-same body_failed req_id bucket key s = same s

  handle_object-same :
      (m : Method) (max : ℤ) (r : Request) (req_id bucket key : Str) (s : S)
      → r.method ≡ m
      → m ≢ delete
      → SameObjects s (handle_object api md5 max r req_id bucket key s).0
  unfolding handle_object
  handle_object-same put max r req_id bucket key s e ne =
      rw (e, handle_object) (put_reply-same (consume_body md5 max r.body) req_id bucket key s)
  handle_object-same head max r req_id bucket key s e ne = rw (e, handle_object) (same s)
  handle_object-same get max r req_id bucket key s e ne = rw (e, handle_object) (same s)
  handle_object-same (other m) max r req_id bucket key s e ne = rw (e, handle_object) (same s)
  handle_object-same delete max r req_id bucket key s e ne = absurd (ne refl)

  handle_root-same :
      (m : Method) (now : ℕ) (r : Request) (req_id : Str) (s : S)
      → r.method ≡ m
      → SameObjects s (handle_root api now r req_id s).0
  unfolding handle_root
  handle_root-same get now r req_id s e = rw (e, handle_root) (same s)
  handle_root-same head now r req_id s e = rw (e, handle_root) (same s)
  handle_root-same put now r req_id s e = rw (e, handle_root) (same s)
  handle_root-same delete now r req_id s e = rw (e, handle_root) (same s)
  handle_root-same (other m) now r req_id s e = rw (e, handle_root) (same s)

  handle_path-same :
      (max : ℤ) (r : Request) (req_id : Str) (p : SplitPath) (s : S)
      → r.method ≢ delete
      → SameObjects s (handle_path api md5 max r req_id p s).0
  unfolding handle_path
  handle_path-same max r req_id (bad_path e) s ne = same s
  handle_path-same max r req_id (at_path bucket key) s ne =
      if-elim (λ (x : S × Reply). SameObjects s x.0) (is_empty key)
        (λ _. handle_bucket-same r.method r req_id bucket s refl ne)
        (λ _. handle_object-same r.method max r req_id bucket key s refl ne)

  -- A request that is not a DELETE changes no object of the store, whatever its path and its body.
  pub serve_http-same_objects :
      (now : ℕ) (r : Request) (h : Handler S)
      → r.method ≢ delete
      → (bucket key : Str)
      → api.get_object bucket key (serve_http api md5 now r h).0.store
        ≡ api.get_object bucket key h.store
  unfolding serve_http
  serve_http-same_objects now r h ne =
      if-elim (λ (x : S × Reply). SameObjects h.store x.0) (str_eq r.path (slash ∷ []))
        (λ _. handle_root-same r.method now r _ h.store refl)
        (λ _. handle_path-same h.max_object_size r _ (split_bucket_and_key r.path) h.store ne)

module _ {S : Type 0} (api : Store S) (md5 : Str → Str) where
  -- The store after a request to a path that names a bucket and a key, and the reply to it.
  pub serve_http-object :
      (now : ℕ) (r : Request) (bucket : Str) (c : ℕ) (cs : Str) (h : Handler S)
      → split_bucket_and_key r.path ≡ at_path bucket (c ∷ cs)
      → let done = handle_object api md5 h.max_object_size r (next_id h) bucket (c ∷ cs) h.store in
        ((serve_http api md5 now r h).0.store ≡ done.0)
        × ((serve_http api md5 now r h).1.reply ≡ done.1)
  unfolding serve_http handle_path
  serve_http-object now r bucket c cs h e = (
    rw (at_path-not_root r.path bucket (c ∷ cs) e, e) refl,
    rw (at_path-not_root r.path bucket (c ∷ cs) e, e) refl,
  )

  pub serve_http-bucket :
      (now : ℕ) (r : Request) (bucket : Str) (h : Handler S)
      → split_bucket_and_key r.path ≡ at_path bucket []
      → let done = handle_bucket api r (next_id h) bucket h.store in
        ((serve_http api md5 now r h).0.store ≡ done.0)
        × ((serve_http api md5 now r h).1.reply ≡ done.1)
  unfolding serve_http handle_path
  serve_http-bucket now r bucket h e = (
    rw (at_path-not_root r.path bucket [] e, e) refl,
    rw (at_path-not_root r.path bucket [] e, e) refl,
  )
