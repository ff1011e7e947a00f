-- ===== src/InmemStore/Removal.antt =====
-- internal/inmems3/store/store.go: removeObjectLocked, insertObjectLocked and CreateBucket on the
-- objects, the byte count and the invariant
use rdma_demo.Base.{
  ◌+◌, ◌<◌, ◌≡◌, refl, inl, inr, none, some, ite, arith, length, Option-cases, Bool, true, false,
}
use rdma_demo.Base.Int.{pos, sub64, sub64-pos, half_range}
use rdma_demo.Base.Text.{Str, Str-discrete}
use rdma_demo.Base.Map.{
  Map, lookup, insert, erase, Distinct, lookup-insert, lookup-erase, insert-Distinct,
  erase-Distinct,
}
use rdma_demo.Base.Map.Weight.{weight, weight_of, weight-insert, weight-erase}
use rdma_demo.Base.Map.Values.{AllValues-lookup, AllValues-insert}
use rdma_demo.InmemStore.State.{
  Object, MemoryStore, get_bucket, get_object, make_object_id, unlink, remove_object,
}
use rdma_demo.InmemStore.Methods.{exists_in}
use rdma_demo.InmemStore.Invariant.{body_size, total_bytes, IsValid}
use rdma_demo.InmemStore.Queue.{unlink-IsLinked}

-- What `unlink` leaves alone.
pub buckets-unlink :
    (id : Str) (s : MemoryStore)
    → ((unlink id s).buckets ≡ s.buckets)
      × ((unlink id s).used_bytes ≡ s.used_bytes)
      × ((unlink id s).max_bytes ≡ s.max_bytes)
unfolding unlink
buckets-unlink id s = (ground arith, ground arith, ground arith)

-- The state between `delete(b, key)` and the removal from the queue.
abbrev pub dropped : Str → Str → Map Str Object → Object → MemoryStore → MemoryStore
dropped bucket key b obj s = record s {
  buckets = insert Str-discrete bucket (erase Str-discrete key b) s.buckets;
  used_bytes = sub64 s.used_bytes (pos (length obj.body));
}

-- The two ways through removeObjectLocked.
pub remove_object-cases {ℓ} :
    (P : MemoryStore × Bool → Type ℓ) (bucket key : Str) (s : MemoryStore)
    → (get_object bucket key s ≡ none → P (s, false))
    → ((b : Map Str Object) (obj : Object)
        → get_bucket s bucket ≡ some b
        → lookup Str-discrete key b ≡ some obj
        → P (unlink (make_object_id bucket key) (dropped bucket key b obj s), true))
    → P (remove_object bucket key s)
unfolding get_object remove_object
remove_object-cases P bucket key s missing found = elim (Option-cases (get_bucket s bucket)) [
  | inl e ↦ rw (e, remove_object) (missing (rw (e, get_object)))
  | inr (b, e) ↦ elim (Option-cases (lookup Str-discrete key b)) [
    | inl k ↦ rw (e, remove_object) (rw k (missing (rw (e, get_object) k)))
    | inr (obj, k) ↦ rw (e, remove_object) (rw k (found b obj e k))
  ]
]

-- Exactly the object that is named goes away.
pub get_object-remove_object :
    (bucket key bucket' key' : Str) (s : MemoryStore)
    → get_object bucket' key' (remove_object bucket key s).0
      ≡ ite
          (Str-discrete bucket bucket')
          (ite (Str-discrete key key') none (get_object bucket' key' s))
          (get_object bucket' key' s)
unfolding get_object
get_object-remove_object bucket key bucket' key' s =
    remove_object-cases
      (λ r.
        get_object bucket' key' r.0
        ≡ ite (Str-discrete bucket bucket')
            (ite (Str-discrete key key') none (get_object bucket' key' s))
            (get_object bucket' key' s))
      bucket key s (λ h. ground arith)
      λ b obj e k. ground (
        arith,
        lookup-erase Str-discrete key key' b,
        lookup-insert Str-discrete bucket bucket' (erase Str-discrete key b) s.buckets,
        buckets-unlink (make_object_id bucket key) (dropped bucket key b obj s),
      )

module _ (bucket key : Str) (b : Map Str Object) (obj : Object) (s : MemoryStore) (v : IsValid s)
    (e : get_bucket s bucket ≡ some b) (k : lookup Str-discrete key b ≡ some obj) where
  dropped_keys : Distinct Str-discrete b
  dropped_keys =
      AllValues-lookup Str-discrete (Distinct Str-discrete) bucket b s.buckets v.distinct_keys e

  total_bytes-dropped :
      total_bytes (dropped bucket key b obj s).buckets + length obj.body ≡ total_bytes s.buckets
  total_bytes-dropped = ground (
    arith,
    weight-insert Str-discrete (weight body_size) bucket (erase Str-discrete key b) s.buckets,
    weight-erase Str-discrete body_size key b dropped_keys,
  )

  dropped-IsValid :
      total_bytes s.buckets < half_range
      → IsValid (unlink (make_object_id bucket key) (dropped bucket key b obj s))
  dropped-IsValid small =
      let (bs, us, _) = buckets-unlink (make_object_id bucket key) (dropped bucket key b obj s) in
      let linked =
        unlink-IsLinked (make_object_id bucket key) (dropped bucket key b obj s) v.linked in
      record {
        distinct_buckets =
            rw bs (insert-Distinct Str-discrete bucket _ s.buckets v.distinct_buckets);
        distinct_keys = rw bs (
            AllValues-insert Str-discrete (Distinct Str-discrete) bucket _ s.buckets
              (erase-Distinct Str-discrete key b dropped_keys) v.distinct_keys);
        counted = ground (
          arith,
          bs,
          us,
          total_bytes-dropped,
          sub64-pos (total_bytes s.buckets) (length obj.body),
        );
        linked = linked;
      }

-- The bytes of the object leave the total.
pub total_bytes-remove_object :
    (bucket key : Str) (s : MemoryStore)
    → IsValid s
    → total_bytes (remove_object bucket key s).0.buckets
        + weight_of body_size (get_object bucket key s)
      ≡ total_bytes s.buckets
unfolding get_object
total_bytes-remove_object bucket key s v =
    remove_object-cases
      (λ r.
        total_bytes r.0.buckets + weight_of body_size (get_object bucket key s)
        ≡ total_bytes s.buckets)
      bucket key s (λ h. rw h (omega arith))
      λ b obj e k. ground (
        arith,
        total_bytes-dropped bucket key b obj s v e k,
        buckets-unlink (make_object_id bucket key) (dropped bucket key b obj s),
      )

pub remove_object-IsValid :
    (bucket key : Str) (s : MemoryStore)
    → IsValid s
    → total_bytes s.buckets < half_range
    → IsValid (remove_object bucket key s).0
remove_object-IsValid bucket key s v small =
    remove_object-cases (λ r. IsValid r.0) bucket key s (λ h. v)
      λ b obj e k. dropped-IsValid bucket key b obj s v e k small

pub max_bytes-remove_object :
    (bucket key : Str) (s : MemoryStore) → (remove_object bucket key s).0.max_bytes ≡ s.max_bytes
max_bytes-remove_object bucket key s =
    remove_object-cases (λ r. r.0.max_bytes ≡ s.max_bytes) bucket key s (λ h. refl)
      (λ b obj e k. (buckets-unlink (make_object_id bucket key) (dropped bucket key b obj s)).2)

pub exists_in-remove_object :
    (bucket key : Str) (s : MemoryStore)
    → (remove_object bucket key s).1 ≡ exists_in (get_object bucket key s)
unfolding get_object
exists_in-remove_object bucket key s =
    remove_object-cases (λ r. r.1 ≡ exists_in (get_object bucket key s)) bucket key s (λ h. rw h)
      (λ b obj e k. ground arith)
