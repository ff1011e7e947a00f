-- ===== src/RdmaApi/Sequences.antt =====
-- internal/s3rdmaserver/s3api/handler.go: what a request sees of the one before it
use rdma_demo.Base.{ℕ, ◌≡◌, refl, ap, false, none, [], ◌∷◌, ◌∙◌, arith, ite, if◌then◌else◌}
use rdma_demo.Base.Text.{Str, Str-discrete, is_empty, trim_space}
use rdma_demo.S3Api.Handler.{Method, Request, get, head, put, delete}
use rdma_demo.RdmaApi.Paths.{at_path, split_bucket_and_key}
use rdma_demo.RdmaApi.Replies.{Reply, write_header, write_xml, write_s3_error}
use rdma_demo.RdmaApi.Handler.{Store, Handler, handle_bucket, handle_object, serve_http}
use rdma_demo.RdmaApi.Requests.{StoreLaws, serve_http-object, serve_http-bucket}

-- A request with another method.
abbrev pub with_method : Method → Request → Request
with_method m r = record r { method = m }

module _ {S : Type 0} (api : Store S) (md5 : Str → Str) where
  -- The handler, after a request and after another.
  abbrev pub after : Method → ℕ → Request → Handler S → Handler S
  after m now r h = (serve_http api md5 now (with_method m r) h).0

  abbrev pub reply_to : Method → ℕ → Request → Handler S → Reply
  reply_to m now r h = (serve_http api md5 now (with_method m r) h).1.reply

  get_status :
      (now : ℕ) (r : Request) (bucket : Str) (c : ℕ) (cs : Str) (h : Handler S)
      → split_bucket_and_key r.path ≡ at_path bucket (c ∷ cs)
      → api.get_object bucket (c ∷ cs) h.store ≡ none
      → (reply_to get now r h).status ≡ 404
  unfolding handle_object write_s3_error write_xml
  get_status now r bucket c cs h e n =
      ap (λ (x : Reply). x.status)
        (serve_http-object api md5 now (with_method get r) bucket c cs h e).1
      ∙ rw n refl

  head_status :
      (now : ℕ) (r : Request) (bucket : Str) (h : Handler S)
      → split_bucket_and_key r.path ≡ at_path bucket []
      → (reply_to head now r h).status ≡ (if api.bucket_exists bucket h.store then 200 else 404)
  unfolding handle_bucket write_s3_error write_xml
  head_status now r bucket h e =
      ap (λ (x : Reply). x.status) (serve_http-bucket api md5 now (with_method head r) bucket h e).1
      ∙ ground arith

  deleted_store :
      (now : ℕ) (r : Request) (bucket : Str) (c : ℕ) (cs : Str) (h : Handler S)
      → split_bucket_and_key r.path ≡ at_path bucket (c ∷ cs)
      → (after delete now r h).store ≡ (api.delete_object bucket (c ∷ cs) h.store).0
  unfolding handle_object
  deleted_store now r bucket c cs h e =
      (serve_http-object api md5 now (with_method delete r) bucket c cs h e).0

module _ {S : Type 0} (api : Store S) (laws : StoreLaws api) (md5 : Str → Str) where
  -- Over a store that obeys the laws of a map, a DELETE of an object is answered 204, also if there is
  -- none; a GET of the same path after it is answered 404, and every other object reads as before.
  pub delete_get_object :
      (now later : ℕ) (r : Request) (bucket : Str) (c : ℕ) (cs : Str) (h : Handler S)
      → split_bucket_and_key r.path ≡ at_path bucket (c ∷ cs)
      → (reply_to api md5 delete now r h ≡ write_header 204)
        × ((reply_to api md5 get later r (after api md5 delete now r h)).status ≡ 404)
        × ((bucket' key' : Str)
            → api.get_object bucket' key' (after api md5 delete now r h).store
              ≡ ite
                  (Str-discrete bucket bucket')
                  (ite (Str-discrete (c ∷ cs) key') none (api.get_object bucket' key' h.store))
                  (api.get_object bucket' key' h.store))
  unfolding handle_object
  delete_get_object now later r bucket c cs h e =
      let reads = λ (b k : Str).
        ap (api.get_object b k) (deleted_store api md5 now r bucket c cs h e)
        ∙ laws.get-delete bucket (c ∷ cs) h.store b k in
      (
        (serve_http-object api md5 now (with_method delete r) bucket c cs h e).1,
        get_status api md5 later r bucket c cs (after api md5 delete now r h) e
            (reads bucket (c ∷ cs) ∙ ground arith),
        reads,
      )

  -- A HEAD of a bucket is answered 200 after a PUT of it, if its name is not blank, and 404 after a
  -- DELETE of it.
  pub bucket_life :
      (now later : ℕ) (r : Request) (bucket : Str) (h : Handler S)
      → split_bucket_and_key r.path ≡ at_path bucket []
      → is_empty (trim_space bucket) ≡ false
      → ((reply_to api md5 head later r (after api md5 put now r h)).status ≡ 200)
        × ((reply_to api md5 head later r (after api md5 delete now r h)).status ≡ 404)
  unfolding handle_bucket
  bucket_life now later r bucket h e named =
      let created = (serve_http-bucket api md5 now (with_method put r) bucket h e).0 in
      let deleted = (serve_http-bucket api md5 now (with_method delete r) bucket h e).0 in
      (
        head_status api md5 later r bucket (after api md5 put now r h) e
            ∙ ap (λ s. if api.bucket_exists bucket s then 200 else 404) created
            ∙ ground (arith, laws.exists-create bucket h.store bucket),
        head_status api md5 later r bucket (after api md5 delete now r h) e
            ∙ ap (λ s. if api.bucket_exists bucket s then 200 else 404) deleted
            ∙ ground (arith, laws.exists-delete bucket h.store bucket),
      )
