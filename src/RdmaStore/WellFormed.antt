-- ===== src/RdmaStore/WellFormed.antt =====
-- internal/s3rdmaserver/store/store.go: the maps of the store hold no key twice.
use rdma_demo.Base.{ℕ, List, [], ◌∷◌, arith, Option-cases, inl, inr}
use rdma_demo.Base.Text.{Str, Str-discrete}
use rdma_demo.Base.Map.{Map, insert, erase, Distinct, insert-Distinct, erase-Distinct}
use rdma_demo.Base.Map.Values.{AllValues, AllValues-lookup, AllValues-insert, AllValues-erase}
use rdma_demo.RdmaStore.{
  Object, MemoryStore, get_bucket, create_bucket, delete_bucket, put_loaded_object, bucket_or_new,
  delete_object, loaded_object,
}
use rdma_demo.RdmaStore.Runs.{Call, create, exists, delete_all, put, get, delete, run}

abbrev KeysDiffer : Map Str Object → Type 0
KeysDiffer b = Distinct Str-discrete b

-- No bucket name stands twice, and in no bucket a key.
pub record IsWellFormed (s : MemoryStore) : Type 0 where
  pub names : Distinct Str-discrete s.buckets
  pub keys : AllValues KeysDiffer s.buckets

bucket_or_new-Distinct :
    (bucket : Str) (s : MemoryStore) → IsWellFormed s → KeysDiffer (bucket_or_new bucket s)
bucket_or_new-Distinct bucket s w = elim (Option-cases (get_bucket s bucket)) [
  | inl n ↦ rw (n, bucket_or_new) tt
  | inr (b, e) ↦
      rw (e, bucket_or_new) (AllValues-lookup Str-discrete KeysDiffer bucket b s.buckets w.keys e)
]

put_bucket-IsWellFormed :
    (bucket : Str) (b : Map Str Object) (s : MemoryStore)
    → IsWellFormed s
    → KeysDiffer b
    → IsWellFormed (record { buckets = insert Str-discrete bucket b s.buckets })
put_bucket-IsWellFormed bucket b s w d = record {
  names = insert-Distinct Str-discrete bucket b s.buckets w.names;
  keys = AllValues-insert Str-discrete KeysDiffer bucket b s.buckets d w.keys;
}

create_bucket-IsWellFormed :
    (name : Str) (s : MemoryStore) → IsWellFormed s → IsWellFormed (create_bucket name s)
unfolding create_bucket
create_bucket-IsWellFormed name s w = ground (arith, put_bucket-IsWellFormed name [] s)

delete_bucket-IsWellFormed :
    (name : Str) (s : MemoryStore) → IsWellFormed s → IsWellFormed (delete_bucket name s).0
unfolding delete_bucket
delete_bucket-IsWellFormed name s w = ground (
  arith,
  erase-Distinct Str-discrete name s.buckets,
  AllValues-erase Str-discrete KeysDiffer name s.buckets,
)

put_loaded_object-IsWellFormed :
    (md5 : Str → Str) (now : ℕ) (bucket key body : Str) (modified : ℕ) (s : MemoryStore)
    → IsWellFormed s
    → IsWellFormed (put_loaded_object md5 now bucket key body modified s).0
unfolding put_loaded_object
put_loaded_object-IsWellFormed md5 now bucket key body modified s w =
    let b = bucket_or_new bucket s in
    let o = loaded_object md5 now body modified in
    put_bucket-IsWellFormed bucket (insert Str-discrete key o b) s w
      (insert-Distinct Str-discrete key o b (bucket_or_new-Distinct bucket s w))

delete_object-IsWellFormed :
    (bucket key : Str) (s : MemoryStore)
    → IsWellFormed s
    → IsWellFormed (delete_object bucket key s).0
unfolding delete_object
delete_object-IsWellFormed bucket key s w =
    let b = bucket_or_new bucket s in
    ground (
      arith,
      put_bucket-IsWellFormed bucket (erase Str-discrete key b) s,
      erase-Distinct Str-discrete key b,
      bucket_or_new-Distinct bucket s w,
    )

-- A sequence of calls keeps the store well-formed: no bucket name stands twice in it, and no key in
-- one bucket.
pub run-IsWellFormed :
    (md5 : Str → Str) (cs : List Call) (s : MemoryStore)
    → IsWellFormed s
    → IsWellFormed (run md5 cs s).0
unfolding run
run-IsWellFormed md5 [] s w = w
run-IsWellFormed md5 (create name ∷ cs) s w =
    run-IsWellFormed md5 cs (create_bucket name s) (create_bucket-IsWellFormed name s w)
run-IsWellFormed md5 (exists name ∷ cs) s w = run-IsWellFormed md5 cs s w
run-IsWellFormed md5 (delete_all name ∷ cs) s w =
    run-IsWellFormed md5 cs (delete_bucket name s).0 (delete_bucket-IsWellFormed name s w)
run-IsWellFormed md5 (put now bucket key body modified ∷ cs) s w =
    run-IsWellFormed md5 cs (put_loaded_object md5 now bucket key body modified s).0
      (put_loaded_object-IsWellFormed md5 now bucket key body modified s w)
run-IsWellFormed md5 (get bucket key ∷ cs) s w = run-IsWellFormed md5 cs s w
run-IsWellFormed md5 (delete bucket key ∷ cs) s w =
    run-IsWellFormed md5 cs (delete_object bucket key s).0
      (delete_object-IsWellFormed bucket key s w)
