-- ===== src/Examples/Loading.antt =====
-- internal/s3rdmaserver/store/loader.go, internal/inmems3/payload/loader.go and
-- internal/inmems3/control/server.go on a directory with one file
use rdma_demo.Base.{ℕ, ◌≡◌, refl, ◌%◌, ◌^◌, true, false, Option, none, some, List, [], ◌∷◌, arith}
use rdma_demo.Base.Int.{ℤ, pos}
use rdma_demo.Base.Text.{Str, is_empty, trim_space, str_lt, Str-discrete}
use rdma_demo.Base.Map.{lookup}
use rdma_demo.Base.Sort.{sort_by}
use rdma_demo.RdmaStore.{get_object}
use rdma_demo.RdmaStore.Loader as Loader
use rdma_demo.RdmaStore.Imported.{body_etag, last_entry, load_root_lem}
use rdma_demo.InmemStore.State as Inmem
use rdma_demo.InmemStore.State.{
  create_bucket, bucket_exists, get_bucket, insert_object, link, detached, bucket_or_new,
}
use rdma_demo.Payloads.Files.{GoError, FileSystem, ok}
use rdma_demo.Payloads.Loader.{Store, PendingObject, Outcome, nothing_loaded, replace_bucket}
use rdma_demo.Payloads.Clear.{memory_store}
use rdma_demo.Control.{response, clear_all, list_buckets}
use rdma_demo.Control.Codes.{payload_loader, clear_then_list}
use rdma_demo.Examples.Loaded.{same_md5, bucket_b, key_k, key_l, abc, loaded}

abbrev clock : ℤ → ℕ
clock n = 9

abbrev root : Str
root = 47 ∷ []

-- One directory, with one file.
abbrev entries : List Loader.DirEntry
entries = record { name = bucket_b; is_dir = true } ∷ []

abbrev disk : Loader.FileSystem
disk = record {
  stat = λ path. some true;
  read_dir = λ path. some entries;
  walk = λ path name. Loader.skipped ∷ Loader.regular (some abc) (some 5) (some key_l) ∷ [];
}

root-not-empty : is_empty (trim_space root) ≡ false
unfolding trim_space
root-not-empty = refl

all_loaded : (Loader.load_root same_md5 clock disk root loaded).2 ≡ none
unfolding Loader.load_root Loader.load_directory Loader.load_entries Loader.load_bucket_objects
    Loader.walk_objects Loader.pending_object trim_space sort_by
all_loaded = refl

load_root_lem_example :
    body_etag (get_object bucket_b key_l (Loader.load_root same_md5 clock disk root loaded).0)
    ≡ last_entry same_md5
        (disk.walk (trim_space root))
        bucket_b
        key_l
        (sort_by (λ x y. str_lt x.name y.name) entries)
        (body_etag (get_object bucket_b key_l loaded))
load_root_lem_example =
    load_root_lem same_md5 clock disk root entries loaded root-not-empty refl refl all_loaded
      bucket_b key_l

-- A store of at most three bytes.
abbrev small_store : Inmem.MemoryStore
small_store = Inmem.new_memory_store (pos 3) Inmem.reject

abbrev no_text : Inmem.StoreError → Str
no_text e = []

abbrev api : Store Inmem.MemoryStore
api = memory_store same_md5 9 no_text

abbrev plain : Str → Str
plain s = s

-- The first object fits, and the second does not.
abbrev two_objects : List PendingObject
two_objects = record { key = key_k; body = abc } ∷ record { key = key_l; body = abc } ∷ []

abbrev refusing : Outcome Inmem.MemoryStore
refusing = replace_bucket api plain bucket_b two_objects nothing_loaded small_store

abbrev never : Str → Option GoError
never name = none

abbrev no_files : FileSystem
no_files = record { stat = λ path. ok true; read_dir = λ path. ok []; walk = λ path name. [] }

-- A store with two buckets.
abbrev two_buckets : Inmem.MemoryStore
two_buckets = record (Inmem.new_memory_store (pos 3) Inmem.reject) {
  buckets = (bucket_b, []) ∷ (key_k, []) ∷ [];
}

clear_then_list_example :
    ((clear_all (payload_loader api plain never no_files) two_buckets).1 ≡ response (2 % 2 ^ 32))
    × (list_buckets
          (payload_loader api plain never no_files)
          (clear_all (payload_loader api plain never no_files) two_buckets).0
        ≡ response [])
unfolding lookup Str-discrete
clear_then_list_example =
    clear_then_list same_md5 9 no_text plain never no_files two_buckets (refl, (refl, tt))
      (omega arith)
