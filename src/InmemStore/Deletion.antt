-- ===== src/InmemStore/Deletion.antt =====
-- internal/inmems3/store/store.go: DeleteBucket and DeleteObject
use rdma_demo.Base.{
  ◌<◌, ◌≡◌, ◌≢◌, refl, ◌⊎◌, inl, inr, false, Option, none, some, [], ◌∷◌, arith, Option-cases, ite,
}
use rdma_demo.Base.Int.{half_range}
use rdma_demo.Base.Text.{Str, Str-discrete}
use rdma_demo.Base.Map.{Map, lookup, erase, lookup-erase, erase-Distinct, empty_of_lookup}
use rdma_demo.Base.Map.Weight.{weight, weight_of, weight-erase}
use rdma_demo.Base.Map.Values.{AllValues-erase}
use rdma_demo.Base.Map.{Distinct}
use rdma_demo.InmemStore.State.{
  Object, MemoryStore, get_bucket, get_object, remove_object, bucket_exists,
}
use rdma_demo.InmemStore.Methods.{remove_all, delete_bucket, delete_object, exists_in}
use rdma_demo.InmemStore.Invariant.{IsValid, total_bytes, body_size}
use rdma_demo.InmemStore.Removal.{
  get_object-remove_object, total_bytes-remove_object, remove_object-IsValid,
  exists_in-remove_object,
}

remove_all-IsValid :
    (bucket : Str) (l : Map Str Object) (s : MemoryStore)
    → IsValid s
    → total_bytes s.buckets < half_range
    → IsValid (remove_all bucket l s)
unfolding remove_all
remove_all-IsValid bucket [] s v small = v
remove_all-IsValid bucket ((key, o) ∷ l) s v small =
    remove_all-IsValid bucket l (remove_object bucket key s).0
      (remove_object-IsValid bucket key s v small)
      (omega (arith, total_bytes-remove_object bucket key s v))

-- A listed key is gone afterwards; any other is as before.
get_object-remove_all :
    (bucket : Str) (l : Map Str Object) (s : MemoryStore) (key : Str)
    → (get_object bucket key (remove_all bucket l s) ≡ none)
      ⊎ ((get_object bucket key (remove_all bucket l s) ≡ get_object bucket key s)
          × (lookup Str-discrete key l ≡ none))
unfolding remove_all lookup
get_object-remove_all bucket [] s key = inr (refl, refl)
get_object-remove_all bucket ((k, o) ∷ l) s key = ground (
  arith,
  get_object-remove_all bucket l (remove_object bucket k s).0 key,
  get_object-remove_object bucket k bucket key s,
)

get_object-remove_all_other :
    (bucket : Str) (l : Map Str Object) (s : MemoryStore) (bucket' key : Str)
    → bucket' ≢ bucket
    → get_object bucket' key (remove_all bucket l s) ≡ get_object bucket' key s
unfolding remove_all
get_object-remove_all_other bucket [] s bucket' key ne = refl
get_object-remove_all_other bucket ((k, o) ∷ l) s bucket' key ne = ground (
  arith,
  get_object-remove_all_other bucket l (remove_object bucket k s).0 bucket' key ne,
  get_object-remove_object bucket k bucket' key s,
)

module _ (name : Str) (b : Map Str Object) (s : MemoryStore) (e : get_bucket s name ≡ some b) where
  abbrev pub emptied : MemoryStore
  emptied = remove_all name b s

  pub emptied-none : (key : Str) → get_object name key emptied ≡ none
  unfolding get_object
  emptied-none key = ground (arith, get_object-remove_all name b s key)

  weight-emptied :
      (o : Option (Map Str Object))
      → get_bucket emptied name ≡ o
      → weight_of (weight body_size) o ≡ 0
  weight-emptied none h = refl
  weight-emptied (some m) h =
      rw (empty_of_lookup Str-discrete m (λ k. unfold get_object in ground (arith, emptied-none k)))

  pub dropped_bucket-IsValid :
      IsValid emptied
      → IsValid (record emptied { buckets = erase Str-discrete name emptied.buckets })
  dropped_bucket-IsValid v = record {
    distinct_buckets = erase-Distinct Str-discrete name emptied.buckets v.distinct_buckets;
    distinct_keys =
        AllValues-erase Str-discrete (Distinct Str-discrete) name emptied.buckets v.distinct_keys;
    counted = ground (
      arith,
      v.counted,
      weight-erase Str-discrete (weight body_size) name emptied.buckets v.distinct_buckets,
      weight-emptied (get_bucket emptied name) refl,
    );
    linked = v.linked;
  }

-- DeleteBucket keeps the invariant: with the bucket go the sizes of its objects from the count and
-- their elements from the queue.
pub delete_bucket-IsValid :
    (name : Str) (s : MemoryStore)
    → IsValid s
    → total_bytes s.buckets < half_range
    → IsValid (delete_bucket name s).0
unfolding delete_bucket
delete_bucket-IsValid name s v small = elim (Option-cases (get_bucket s name)) [
  | inl e ↦ rw (e, delete_bucket) v
  | inr (b, e) ↦
      rw (e, delete_bucket)
        (dropped_bucket-IsValid name b s e (remove_all-IsValid name b s v small))
]

dropped_bucket_lem :
    (name : Str) (s s' : MemoryStore) (bucket key : Str)
    → (bucket ≢ name → get_object bucket key s' ≡ get_object bucket key s)
    → (bucket_exists name (record s' { buckets = erase Str-discrete name s'.buckets }) ≡ false)
      × (get_object bucket key (record s' { buckets = erase Str-discrete name s'.buckets })
          ≡ ite (Str-discrete name bucket) none (get_object bucket key s))
unfolding bucket_exists get_object
dropped_bucket_lem name s s' bucket key same = (
  ground (arith, lookup-erase Str-discrete name name s'.buckets),
  ground (arith, lookup-erase Str-discrete name bucket s'.buckets, λ (p : bucket ≢ name). same p),
)

-- DeleteBucket reports whether the bucket was there, removes it with all its objects, and leaves
-- the objects of every other bucket.
pub delete_bucket_lem :
    (name : Str) (s : MemoryStore) (bucket key : Str)
    → ((delete_bucket name s).1 ≡ bucket_exists name s)
      × (bucket_exists name (delete_bucket name s).0 ≡ false)
      × (get_object bucket key (delete_bucket name s).0
          ≡ ite (Str-discrete name bucket) none (get_object bucket key s))
unfolding delete_bucket
delete_bucket_lem name s bucket key = elim (Option-cases (get_bucket s name)) [
  | inl e ↦
      rw (e, delete_bucket)
        (unfold bucket_exists get_object in (ground arith, ground arith, ground arith))
  | inr (b, e) ↦
      let (gone, kept) =
        dropped_bucket_lem name s (remove_all name b s) bucket key
          (get_object-remove_all_other name b s bucket key) in
      rw (e, delete_bucket) (unfold bucket_exists in ground arith, gone, kept)
]

-- DeleteObject of a valid store whose bytes fit into an int64 keeps the invariant, removes exactly
-- the named object, and reports whether there was one.
pub delete_object_lem :
    (bucket key bucket' key' : Str) (s : MemoryStore)
    → IsValid s
    → total_bytes s.buckets < half_range
    → IsValid (delete_object bucket key s).0
      × (get_object bucket' key' (delete_object bucket key s).0
          ≡ ite
              (Str-discrete bucket bucket')
              (ite (Str-discrete key key') none (get_object bucket' key' s))
              (get_object bucket' key' s))
      × ((delete_object bucket key s).1 ≡ exists_in (get_object bucket key s))
unfolding delete_object
delete_object_lem bucket key bucket' key' s v small = (
  remove_object-IsValid bucket key s v small,
  get_object-remove_object bucket key bucket' key' s,
  exists_in-remove_object bucket key s,
)
