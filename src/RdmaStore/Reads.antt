-- ===== src/RdmaStore/Reads.antt =====
-- internal/s3rdmaserver/store/store.go: what each method leaves readable
use rdma_demo.Base.{ℕ, ◌≡◌, true, false, none, some, [], arith, ite, if◌then◌else◌}
use rdma_demo.Base.Text.{Str, Str-discrete, is_empty, trim_space}
use rdma_demo.Base.Map.{insert, erase, lookup-nil, lookup-insert, lookup-erase}
use rdma_demo.RdmaStore.{
  Object, MemoryStore, bucket_or_new, create_bucket, bucket_exists, delete_bucket, loaded_object,
  put_loaded_object, get_object, delete_object,
}

-- An object that was loaded is read back whole, and every other object reads as before.
pub get_object-put_loaded_object :
    (md5 : Str → Str) (now : ℕ) (bucket key body : Str) (modified : ℕ) (s : MemoryStore)
    (bucket' key' : Str)
    → get_object bucket' key' (put_loaded_object md5 now bucket key body modified s).0
      ≡ ite
          (Str-discrete bucket bucket')
          (ite
            (Str-discrete key key')
            (some (loaded_object md5 now body modified))
            (get_object bucket' key' s))
          (get_object bucket' key' s)
unfolding get_object put_loaded_object
get_object-put_loaded_object md5 now bucket key body modified s bucket' key' =
    let obj = loaded_object md5 now body modified in
    ground (
      arith,
      lookup-nil {V = Object} Str-discrete key',
      lookup-insert Str-discrete key key' obj (bucket_or_new bucket s),
      lookup-insert Str-discrete bucket bucket'
          (insert Str-discrete key obj (bucket_or_new bucket s)) s.buckets,
    )

-- DeleteObject removes exactly the named object, and reports whether there was one.
pub get_object-delete_object :
    (bucket key : Str) (s : MemoryStore) (bucket' key' : Str)
    → get_object bucket' key' (delete_object bucket key s).0
      ≡ ite
          (Str-discrete bucket bucket')
          (ite (Str-discrete key key') none (get_object bucket' key' s))
          (get_object bucket' key' s)
unfolding get_object delete_object
get_object-delete_object bucket key s bucket' key' = ground (
  arith,
  lookup-erase Str-discrete key key' (bucket_or_new bucket s),
  lookup-insert Str-discrete bucket bucket' (erase Str-discrete key (bucket_or_new bucket s))
      s.buckets,
)

-- CreateBucket makes no object appear or vanish.
pub get_object-create_bucket :
    (name : Str) (s : MemoryStore) (bucket key : Str)
    → get_object bucket key (create_bucket name s) ≡ get_object bucket key s
unfolding get_object create_bucket
get_object-create_bucket name s bucket key = ground (
  arith,
  lookup-insert Str-discrete name bucket [] s.buckets,
  lookup-nil {V = Object} Str-discrete key,
)

-- After CreateBucket a bucket is there if it was there before or if it is the one named, unless
-- that name is blank; after DeleteBucket exactly the one named is not.
pub bucket_exists_lem :
    (name : Str) (s : MemoryStore) (bucket : Str)
    → (bucket_exists bucket (create_bucket name s)
        ≡ ite
            (Str-discrete name bucket)
            (if is_empty (trim_space name) then bucket_exists bucket s else true)
            (bucket_exists bucket s))
      × (bucket_exists bucket (delete_bucket name s).0
          ≡ ite (Str-discrete name bucket) false (bucket_exists bucket s))
      × ((delete_bucket name s).1 ≡ bucket_exists name s)
unfolding bucket_exists create_bucket delete_bucket
bucket_exists_lem name s bucket = (
  ground (arith, lookup-insert Str-discrete name bucket [] s.buckets),
  ground (arith, lookup-erase Str-discrete name bucket s.buckets),
  ground arith,
)
