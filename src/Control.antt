-- ===== src/Control.antt =====
-- internal/inmems3/control/server.go: the handlers of the control service over its interface Loader.
-- gRPC and the generated messages are left out: a handler takes the request's field and returns the
-- response's fields or a status.
pub mod Codes
use rdma_demo.Base.{ℕ, ◌-◌, ◌%◌, ◌^◌, Bool, none, some, List, [], ◌∷◌, ◌||◌, if◌then◌else◌}
use rdma_demo.Base.Int.{ℤ, pos, negsuc, full_range}
use rdma_demo.Base.Text.{Str, codes, is_empty, trim_space, has_prefix}
use rdma_demo.Payloads.Files.{GoError}
use rdma_demo.Payloads.Loader.{Outcome}

-- strings.Contains
unfoldable pub contains : Str → Str → Bool
contains [] p = has_prefix [] p
contains (c ∷ s) p = has_prefix (c ∷ s) p || contains s p

-- The interface Loader, over the states of what it loads into.
pub record Loader (S : Type 0) : Type 0 where
  pub add_folder : Str → S → Outcome S
  pub delete_bucket : Str → S → S × Bool
  pub clear_all : S → S × ℤ
  pub list_buckets : S → List Str

pub data Code : Type 0 where
  invalid_argument not_found internal : Code

-- A response, or a status with its code and message.
pub data Answer (A : Type 0) : Type 0 where
  response : A → Answer A
  status : Code → Str → Answer A

pub record AddFolderResponse : Type 0 where
  pub buckets_loaded : ℕ
  pub objects_loaded : ℕ
  pub bytes_loaded : ℕ
  pub buckets : List Str

-- uint32(n) and uint64(n) of a signed word
abbrev pub to_uint : ℕ → ℤ → ℕ
to_uint range (pos n) = n % range
to_uint range (negsuc n) = range - 1 - n % range

unfoldable pub to_status_error : {A : Type 0} → GoError → Answer A
to_status_error e =
    if e.not_exist
    then status not_found e.text
    else if contains e.text (codes "is not a directory")
    then status invalid_argument e.text
    else status internal e.text

module _ {S : Type 0} (loader : Loader S) where
  unfoldable pub add_folder : Str → S → S × Answer AddFolderResponse
  add_folder path s =
      if is_empty (trim_space path)
      then (s, status invalid_argument (codes "path must not be empty"))
      else (
        (loader.add_folder path s).0,
        elim (loader.add_folder path s).2 [
          | some e ↦ to_status_error e
          | none ↦
              let result = (loader.add_folder path s).1 in
              response (record {
                buckets_loaded = to_uint (2 ^ 32) result.buckets_loaded;
                objects_loaded = to_uint (2 ^ 32) result.objects_loaded;
                bytes_loaded = to_uint full_range result.bytes_loaded;
                buckets = result.buckets;
              })
        ],
      )

  unfoldable pub delete_bucket : Str → S → S × Answer Bool
  delete_bucket name s =
      let bucket = trim_space name in
      let (s', deleted) = loader.delete_bucket bucket s in
      if is_empty bucket
      then (s, status invalid_argument (codes "bucket must not be empty"))
      else (s', response deleted)

  unfoldable pub clear_all : S → S × Answer ℕ
  clear_all s = let (s', deleted) = loader.clear_all s in (s', response (to_uint (2 ^ 32) deleted))

  unfoldable pub list_buckets : S → Answer (List Str)
  list_buckets s = response (loader.list_buckets s)
