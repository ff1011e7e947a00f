-- ===== src/InmemStore/Insertion.antt =====
-- internal/inmems3/store/store.go: removeObjectLocked, insertObjectLocked and CreateBucket on the
-- objects, the byte count and the invariant
use rdma_demo.Base.{◌+◌, ◌<◌, ◌≡◌, inl, inr, none, some, [], ite, arith, length, Option-cases}
use rdma_demo.Base.Int.{pos, add64, add64-pos, half_range}
use rdma_demo.Base.Text.{Str, Str-discrete}
use rdma_demo.Base.Map.{lookup-nil, insert, Distinct, lookup-insert, insert-Distinct}
use rdma_demo.Base.Map.Weight.{weight, weight-insert}
use rdma_demo.Base.Map.Values.{AllValues-lookup, AllValues-insert}
use rdma_demo.InmemStore.State.{
  Object, MemoryStore, get_bucket, bucket_or_new, create_bucket, get_object, make_object_id, link,
  insert_object,
}
use rdma_demo.InmemStore.Invariant.{body_size, total_bytes, IsValid}
use rdma_demo.InmemStore.Queue.{link-IsLinked}

-- CreateBucket adds an empty bucket, or nothing.
pub create_bucket-IsValid :
    (name : Str) (s : MemoryStore) → IsValid s → IsValid (create_bucket name s)
unfolding create_bucket
create_bucket-IsValid name s v = elim (Option-cases (get_bucket s name)) [
  | inl e ↦
      rw (e, create_bucket)
        (record {
          distinct_buckets = insert-Distinct Str-discrete name [] s.buckets v.distinct_buckets;
          distinct_keys =
              AllValues-insert Str-discrete (Distinct Str-discrete) name [] s.buckets tt
                v.distinct_keys;
          counted = ground (arith, weight-insert Str-discrete (weight body_size) name [] s.buckets);
          linked = v.linked;
        })
  | inr (b, e) ↦ rw (e, create_bucket) v
]

pub total_bytes-create_bucket :
    (name : Str) (s : MemoryStore)
    → total_bytes (create_bucket name s).buckets ≡ total_bytes s.buckets
unfolding create_bucket
total_bytes-create_bucket name s =
    ground (arith, weight-insert Str-discrete (weight body_size) name [] s.buckets)

pub get_object-create_bucket :
    (name bucket key : Str) (s : MemoryStore)
    → get_object bucket key (create_bucket name s) ≡ get_object bucket key s
unfolding create_bucket get_object
get_object-create_bucket name bucket key s = ground (
  arith,
  lookup-insert Str-discrete name bucket [] s.buckets,
  lookup-nil {V = Object} Str-discrete key,
)

-- What insertObjectLocked does to the objects and to the count, before the queue.
abbrev placed : Str → Str → Object → MemoryStore → MemoryStore
placed bucket key obj s = record s {
  buckets =
      insert Str-discrete bucket (insert Str-discrete key obj (bucket_or_new bucket s)) s.buckets;
  used_bytes = add64 s.used_bytes (pos (length obj.body));
}

pub get_object-insert_object :
    (bucket key bucket' key' : Str) (obj : Object) (s : MemoryStore)
    → get_object bucket' key' (insert_object bucket key obj s)
      ≡ ite
          (Str-discrete bucket bucket')
          (ite (Str-discrete key key') (some obj) (get_object bucket' key' s))
          (get_object bucket' key' s)
unfolding get_object insert_object link
get_object-insert_object bucket key bucket' key' obj s = ground (
  arith,
  lookup-nil {V = Object} Str-discrete key',
  lookup-insert Str-discrete key key' obj (bucket_or_new bucket s),
  lookup-insert Str-discrete bucket bucket' (insert Str-discrete key obj (bucket_or_new bucket s))
      s.buckets,
)

pub total_bytes-insert_object :
    (bucket key : Str) (obj : Object) (s : MemoryStore)
    → get_object bucket key s ≡ none
    → total_bytes (insert_object bucket key obj s).buckets ≡ total_bytes s.buckets + length obj.body
unfolding get_object insert_object link
total_bytes-insert_object bucket key obj s absent = ground (
  arith,
  lookup-nil {V = Object} Str-discrete key,
  weight-insert Str-discrete body_size key obj (bucket_or_new bucket s),
  weight-insert Str-discrete (weight body_size) bucket
      (insert Str-discrete key obj (bucket_or_new bucket s)) s.buckets,
)

bucket_or_new-Distinct :
    (bucket : Str) (s : MemoryStore) → IsValid s → Distinct Str-discrete (bucket_or_new bucket s)
bucket_or_new-Distinct bucket s v = elim (Option-cases (get_bucket s bucket)) [
  | inl e ↦ rw (e, Distinct) tt
  | inr (b, e) ↦
      rw (e, Distinct)
        (AllValues-lookup Str-discrete (Distinct Str-discrete) bucket b s.buckets v.distinct_keys e)
]

pub insert_object-IsValid :
    (bucket key : Str) (obj : Object) (s : MemoryStore)
    → IsValid s
    → get_object bucket key s ≡ none
    → total_bytes s.buckets + length obj.body < half_range
    → IsValid (insert_object bucket key obj s)
unfolding insert_object link
insert_object-IsValid bucket key obj s v absent small =
    let linked = link-IsLinked (make_object_id bucket key) (placed bucket key obj s) v.linked in
    record {
      distinct_buckets = insert-Distinct Str-discrete bucket _ s.buckets v.distinct_buckets;
      distinct_keys =
          AllValues-insert Str-discrete (Distinct Str-discrete) bucket _ s.buckets
            (insert-Distinct Str-discrete key obj (bucket_or_new bucket s)
              (bucket_or_new-Distinct bucket s v))
            v.distinct_keys;
      counted = ground (
        arith,
        total_bytes-insert_object bucket key obj s absent,
        add64-pos (total_bytes s.buckets) (length obj.body),
      );
      linked = linked;
    }

pub max_bytes-create_bucket :
    (name : Str) (s : MemoryStore) → (create_bucket name s).max_bytes ≡ s.max_bytes
unfolding create_bucket
max_bytes-create_bucket name s = ground arith
