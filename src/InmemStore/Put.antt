-- ===== src/InmemStore/Put.antt =====
-- internal/inmems3/store/store.go: PutObject
use rdma_demo.Base.{◌+◌, ◌≤◌, ◌<◌, ◌≡◌, refl, Option, none, some, arith, length, ite, if◌then◌else◌}
use rdma_demo.Base.Int.{half_range}
use rdma_demo.Base.Text.{Str, Str-discrete}
use rdma_demo.Base.Map.{lookup, lookup-nil}
use rdma_demo.Base.Map.Weight.{weight_of}
use rdma_demo.InmemStore.State.{
  Object, MemoryStore, bucket_or_new, get_object, remove_object, insert_object, link,
}
use rdma_demo.InmemStore.Methods.{exists_in, size_of, store_object}
use rdma_demo.InmemStore.Invariant.{IsValid, total_bytes, body_size}
use rdma_demo.InmemStore.Removal.{
  get_object-remove_object, total_bytes-remove_object, remove_object-IsValid,
  max_bytes-remove_object,
}
use rdma_demo.InmemStore.Insertion.{
  get_object-insert_object, total_bytes-insert_object, insert_object-IsValid,
}

pub lookup-bucket_or_new :
    (bucket key : Str) (s : MemoryStore)
    → lookup Str-discrete key (bucket_or_new bucket s) ≡ get_object bucket key s
unfolding get_object
lookup-bucket_or_new bucket key s = ground (arith, lookup-nil {V = Object} Str-discrete key)

weight_of-size_of : (o : Option Object) → weight_of body_size o ≡ size_of o
weight_of-size_of none = refl
weight_of-size_of (some o) = refl

-- The bytes of one object are among the total.
pub size_of-le :
    (bucket key : Str) (s : MemoryStore)
    → IsValid s
    → size_of (get_object bucket key s) ≤ total_bytes s.buckets
size_of-le bucket key s v =
    omega
      (arith, total_bytes-remove_object bucket key s v, weight_of-size_of (get_object bucket key s))

-- The store once the old object, if there is one, is removed.
abbrev cleared : Str → Str → Option Object → MemoryStore → MemoryStore
cleared bucket key old s = if exists_in old then (remove_object bucket key s).0 else s

get_object-cleared :
    (bucket key bucket' key' : Str) (old : Option Object) (s : MemoryStore)
    → get_object bucket key s ≡ old
    → get_object bucket' key' (cleared bucket key old s)
      ≡ ite
          (Str-discrete bucket bucket')
          (ite (Str-discrete key key') none (get_object bucket' key' s))
          (get_object bucket' key' s)
get_object-cleared bucket key bucket' key' none s found = ground arith
get_object-cleared bucket key bucket' key' (some o) s found =
    get_object-remove_object bucket key bucket' key' s

cleared_facts :
    (bucket key : Str) (old : Option Object) (s : MemoryStore)
    → get_object bucket key s ≡ old
    → IsValid s
    → total_bytes s.buckets < half_range
    → IsValid (cleared bucket key old s)
      × (total_bytes (cleared bucket key old s).buckets + size_of old ≡ total_bytes s.buckets)
cleared_facts bucket key none s found v small = (v, omega arith)
cleared_facts bucket key (some o) s found v small = (
  remove_object-IsValid bucket key s v small,
  ground (arith, total_bytes-remove_object bucket key s v),
)

max_bytes-cleared :
    (bucket key : Str) (old : Option Object) (s : MemoryStore)
    → (cleared bucket key old s).max_bytes ≡ s.max_bytes
max_bytes-cleared bucket key none s = refl
max_bytes-cleared bucket key (some o) s = max_bytes-remove_object bucket key s

-- The write proper, into a store that has the old object exactly if `old` is one.
module _ (bucket key : Str) (obj : Object) (s : MemoryStore) (old : Option Object)
    (found : get_object bucket key s ≡ old) where
  abbrev stored : MemoryStore
  stored = store_object bucket key (exists_in old) obj s

  cleared-absent : get_object bucket key (cleared bucket key old s) ≡ none
  cleared-absent = ground (arith, get_object-cleared bucket key bucket key old s found)

  pub get_object-store_object :
      (bucket' key' : Str)
      → get_object bucket' key' stored
        ≡ ite
            (Str-discrete bucket bucket')
            (ite (Str-discrete key key') (some obj) (get_object bucket' key' s))
            (get_object bucket' key' s)
  unfolding store_object
  get_object-store_object bucket' key' = ground (
    arith,
    get_object-cleared bucket key bucket' key' old s found,
    get_object-insert_object bucket key bucket' key' obj (cleared bucket key old s),
  )

  pub max_bytes-store_object : stored.max_bytes ≡ s.max_bytes
  unfolding store_object insert_object link
  max_bytes-store_object = max_bytes-cleared bucket key old s

  pub store_object_facts :
      IsValid s
      → total_bytes s.buckets + length obj.body < half_range
      → IsValid stored
        × (total_bytes stored.buckets + size_of old ≡ total_bytes s.buckets + length obj.body)
  unfolding store_object
  store_object_facts v small =
      let (v', sum) = cleared_facts bucket key old s found v (omega arith) in
      (
        insert_object-IsValid bucket key obj (cleared bucket key old s) v' cleared-absent
            (omega arith),
        omega (
          arith,
          total_bytes-insert_object bucket key obj (cleared bucket key old s) cleared-absent,
        ),
      )
