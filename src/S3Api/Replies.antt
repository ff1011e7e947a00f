-- ===== src/S3Api/Replies.antt =====
-- internal/inmems3/s3api/handler.go: what a request does to the store, and what it is answered
use rdma_demo.Base.{ℕ, ◌<◌, ◌≡◌, refl, Option, ite, ◌∙◌, none, some, [], ◌∷◌, arith, if-elim, ap}
use rdma_demo.Base.Int.{ℤ, half_range}
use rdma_demo.Base.Text.{Str, str_eq, Str-discrete}
use rdma_demo.Ingest.{Ingested, consumed, too_large, read_failed, consume_reader}
use rdma_demo.InmemStore.State.{Object, MemoryStore, create_bucket, get_object}
use rdma_demo.InmemStore.Invariant.{IsValid, total_bytes}
use rdma_demo.InmemStore.Insertion.{create_bucket-IsValid, get_object-create_bucket}
use rdma_demo.InmemStore.Deletion.{delete_bucket-IsValid, delete_bucket_lem, delete_object_lem}
use rdma_demo.InmemStore.Removal.{get_object-remove_object}
use rdma_demo.InmemStore.Methods.{delete_object}
use rdma_demo.S3Api.Routing.{
  slash, SplitPath, at_path, bad_path, split_bucket_and_key, PathError, missing_bucket, trim_slash,
}
use rdma_demo.S3Api.Handler.{
  Method, get, head, put, delete, other, Request, Response, handle_bucket, put_reply, handle_object,
  serve_root, serve_path, serve_http, object_headers, write_xml, write_s3_error, no_such_key,
}

-- What a DELETE of a path leaves of an object: nothing if it is the one that the path names or, when
-- the path has no key, if it is in the bucket that the path names.
abbrev pub after_delete : SplitPath → Str → Str → Option Object → Option Object
after_delete (bad_path e) bucket' key' o = o
after_delete (at_path bucket []) bucket' key' o = ite (Str-discrete bucket bucket') none o
after_delete (at_path bucket (c ∷ key)) bucket' key' o =
    ite (Str-discrete bucket bucket') (ite (Str-discrete (c ∷ key) key') none o) o

-- What a request leaves of an object: only a DELETE removes one, and none stores one.
abbrev pub after_request : Method → SplitPath → Str → Str → Option Object → Option Object
after_request delete p bucket' key' o = after_delete p bucket' key' o
after_request get p bucket' key' o = o
after_request head p bucket' key' o = o
after_request put p bucket' key' o = o
after_request (other m) p bucket' key' o = o

-- What a request may do to a store.
record Served (m : Method) (p : SplitPath) (s s' : MemoryStore) : Type 0 where
  valid : IsValid s → total_bytes s.buckets < half_range → IsValid s'
  reads :
      (bucket key : Str)
      → get_object bucket key s' ≡ after_request m p bucket key (get_object bucket key s)

abbrev Reads : Method → SplitPath → Type 0
Reads m p = (bucket key : Str) (o : Option Object) → o ≡ after_request m p bucket key o

unchanged-Served : (m : Method) (p : SplitPath) (s : MemoryStore) → Reads m p → Served m p s s
unchanged-Served m p s h = record {
  valid = λ v _. v;
  reads = λ bucket key. h bucket key (get_object bucket key s);
}

created-Served :
    (p : SplitPath) (name : Str) (s : MemoryStore) → Served put p s (create_bucket name s)
created-Served p name s = record {
  valid = λ v _. create_bucket-IsValid name s v;
  reads = λ bucket key. get_object-create_bucket name bucket key s;
}

handle_bucket-Served :
    (m : Method) (r : Request) (bucket : Str) (s : MemoryStore)
    → r.method ≡ m
    → Served m (at_path bucket []) s (handle_bucket r bucket s).0
unfolding handle_bucket
handle_bucket-Served put r bucket s e =
    rw (e, handle_bucket) (created-Served (at_path bucket []) bucket s)
handle_bucket-Served head r bucket s e =
    rw (e, handle_bucket) (unchanged-Served head _ s (λ _ _ _. refl))
handle_bucket-Served get r bucket s e =
    rw (e, handle_bucket) (unchanged-Served get _ s (λ _ _ _. refl))
handle_bucket-Served (other m) r bucket s e =
    rw (e, handle_bucket) (unchanged-Served (other m) _ s (λ _ _ _. refl))
handle_bucket-Served delete r bucket s e =
    rw (e, handle_bucket)
      (record {
        valid = λ v small. delete_bucket-IsValid bucket s v small;
        reads = λ bucket' key'. (delete_bucket_lem bucket s bucket' key').2;
      })

put_reply-Served :
    (i : Ingested) (p : SplitPath) (bucket key : Str) (s : MemoryStore)
    → Served put p s (put_reply i bucket key s).0
unfolding put_reply
put_reply-Served (consumed result) p bucket key s = created-Served p bucket s
put_reply-Served (too_large a b) p bucket key s = unchanged-Served put p s (λ _ _ _. refl)
put_reply-Served read_failed p bucket key s = unchanged-Served put p s (λ _ _ _. refl)

bad_path-Reads : (m : Method) (e : PathError) → Reads m (bad_path e)
bad_path-Reads delete e = λ _ _ _. refl
bad_path-Reads get e = λ _ _ _. refl
bad_path-Reads head e = λ _ _ _. refl
bad_path-Reads put e = λ _ _ _. refl
bad_path-Reads (other m) e = λ _ _ _. refl

serve_root_frame :
    (m : Method) (r : Request) (s : MemoryStore) → r.method ≡ m → (serve_root r s).0 ≡ s
unfolding serve_root
serve_root_frame get r s e = rw (e, serve_root)
serve_root_frame head r s e = rw (e, serve_root)
serve_root_frame put r s e = rw (e, serve_root)
serve_root_frame delete r s e = rw (e, serve_root)
serve_root_frame (other m) r s e = rw (e, serve_root)

-- The path of the root names no bucket.
root_path : split_bucket_and_key (slash ∷ []) ≡ bad_path missing_bucket
unfolding split_bucket_and_key trim_slash
root_path = refl

module _ (md5 : Str → Str) (max_object_size : ℤ) where
  handle_object-Served :
      (m : Method) (r : Request) (bucket : Str) (c : ℕ) (key : Str) (s : MemoryStore)
      → r.method ≡ m
      → Served m
          (at_path bucket (c ∷ key))
          s
          (handle_object md5 max_object_size r bucket (c ∷ key) s).0
  unfolding handle_object
  handle_object-Served put r bucket c key s e =
      rw (e, handle_object)
        (put_reply-Served (consume_reader md5 max_object_size r.body) _ bucket (c ∷ key) s)
  handle_object-Served head r bucket c key s e =
      rw (e, handle_object) (unchanged-Served head _ s (λ _ _ _. refl))
  handle_object-Served get r bucket c key s e =
      rw (e, handle_object) (unchanged-Served get _ s (λ _ _ _. refl))
  handle_object-Served (other m) r bucket c key s e =
      rw (e, handle_object) (unchanged-Served (other m) _ s (λ _ _ _. refl))
  handle_object-Served delete r bucket c key s e =
      rw (e, handle_object)
        (record {
          valid = λ v small. (delete_object_lem bucket (c ∷ key) bucket key s v small).0;
          reads = λ bucket' key'.
              unfold delete_object in get_object-remove_object bucket (c ∷ key) bucket' key' s;
        })

  serve_path-Served :
      (r : Request) (p : SplitPath) (s : MemoryStore)
      → Served r.method p s (serve_path md5 max_object_size r p s).0
  unfolding serve_path
  serve_path-Served r (bad_path e) s =
      unchanged-Served r.method (bad_path e) s (bad_path-Reads r.method e)
  serve_path-Served r (at_path bucket []) s = handle_bucket-Served r.method r bucket s refl
  serve_path-Served r (at_path bucket (c ∷ key)) s =
      handle_object-Served r.method r bucket c key s refl

  serve_http-Served :
      (r : Request) (s : MemoryStore)
      → Served r.method (split_bucket_and_key r.path) s (serve_http md5 max_object_size r s).0
  unfolding serve_http
  serve_http-Served r s =
      if-elim (λ (x : MemoryStore × Response). Served r.method (split_bucket_and_key r.path) s x.0)
        (str_eq r.path (slash ∷ []))
        (λ h.
          let root : r.path ≡ slash ∷ [] = ground arith in
          rw (serve_root_frame r.method r s refl) (
            unchanged-Served r.method _ s (
              rw (ap split_bucket_and_key root ∙ root_path)
                (bad_path-Reads r.method missing_bucket))))
        (λ _. serve_path-Served r (split_bucket_and_key r.path) s)

  -- A DELETE whose path names a key removes exactly that object, a DELETE of a bucket exactly the
  -- objects of that bucket, and every other request, also a PUT of an object and a DELETE of a path
  -- that cannot be split, leaves every object as it was; the store stays valid. The store must be
  -- valid before, and its bytes fit into an int64.
  pub serve_http_lem :
      (r : Request) (s : MemoryStore) (bucket key : Str)
      → IsValid s
      → total_bytes s.buckets < half_range
      → IsValid (serve_http md5 max_object_size r s).0
        × (get_object bucket key (serve_http md5 max_object_size r s).0
            ≡ after_request r.method
                (split_bucket_and_key r.path)
                bucket
                key
                (get_object bucket key s))
  serve_http_lem r s bucket key v small =
      let served = serve_http-Served r s in (served.valid v small, served.reads bucket key)

  -- GET and HEAD of an object answer alike, with the object's headers and, for GET, its body, or with
  -- 404 if there is none.
  pub handle_object_lem :
      (r : Request) (bucket key : Str) (s : MemoryStore)
      → ((handle_object md5 max_object_size (record r { method = get }) bucket key s).1
          ≡ (elim (get_object bucket key s) [
            | none ↦ write_s3_error 404 no_such_key bucket key
            | some obj ↦ record (object_headers obj) { bytes = obj.body }
          ]))
        × (record (handle_object md5 max_object_size (record r { method = get }) bucket key s).1 {
          bytes = [];
        }
            ≡ (handle_object md5 max_object_size (record r { method = head }) bucket key s).1)
  unfolding handle_object write_s3_error write_xml
  handle_object_lem r bucket key s = (refl, ground arith)
