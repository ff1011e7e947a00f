-- ===== src/InmemStore/Calls.antt =====
-- internal/inmems3/store/store.go: the eviction queue stands for exactly the stored objects after
-- each exported method
use rdma_demo.Base.{
  ℕ, ◌+◌, ◌<◌, ◌≡◌, refl, Bool, true, false, Option, none, some, List, [], ◌∷◌, arith, length,
  Option-cases, inl, inr,
}
use rdma_demo.Base.Int.{ℤ, half_range}
use rdma_demo.Base.Text.{Str, Str-discrete}
use rdma_demo.Base.Map.{Map, erase, lookup, lookup-erase, member}
use rdma_demo.InmemStore.State.{
  EvictPolicy, Object, MemoryStore, get_bucket, create_bucket, get_object, remove_object,
  evict_object_by_id, new_memory_store,
}
use rdma_demo.InmemStore.Evict.{evict_all}
use rdma_demo.InmemStore.Methods.{
  exists_in, remove_all, store_object, put_object, delete_object, delete_bucket,
}
use rdma_demo.InmemStore.Invariant.{IsValid, total_bytes}
use rdma_demo.InmemStore.Eviction.{evict-cases}
use rdma_demo.InmemStore.Deletion.{emptied-none}
use rdma_demo.InmemStore.Guarantees.{put_object-cases}
use rdma_demo.InmemStore.Tracking.{
  IsTracked, has_no_nul, TrackedAt, same-IsTracked, create_bucket-IsTracked,
  remove_object-IsTracked, insert_object-IsTracked,
}

evict-IsTracked : (id : Str) (s : MemoryStore) → IsTracked s → IsTracked (evict_object_by_id id s)
evict-IsTracked id s t =
    evict-cases id s IsTracked (λ _. t) (λ bucket key _. remove_object-IsTracked bucket key s t)

evict_all-IsTracked : (ids : List Str) (s : MemoryStore) → IsTracked s → IsTracked (evict_all ids s)
unfolding evict_all
evict_all-IsTracked [] s t = t
evict_all-IsTracked (id ∷ ids) s t =
    evict_all-IsTracked ids (evict_object_by_id id s) (evict-IsTracked id s t)

remove_all-IsTracked :
    (bucket : Str) (l : Map Str Object) (s : MemoryStore)
    → IsTracked s
    → IsTracked (remove_all bucket l s)
unfolding remove_all
remove_all-IsTracked bucket [] s t = t
remove_all-IsTracked bucket ((key, o) ∷ l) s t =
    remove_all-IsTracked bucket l (remove_object bucket key s).0
      (remove_object-IsTracked bucket key s t)

-- A bucket without objects can go.
get_object-erase_bucket :
    (name : Str) (s : MemoryStore) (bucket key : Str)
    → ((k : Str) → get_object name k s ≡ none)
    → get_object bucket key (record s { buckets = erase Str-discrete name s.buckets })
      ≡ get_object bucket key s
unfolding get_object
get_object-erase_bucket name s bucket key gone =
    ground (arith, lookup-erase Str-discrete name bucket s.buckets, gone key)

pub delete_bucket-IsTracked :
    (name : Str) (s : MemoryStore) → IsTracked s → IsTracked (delete_bucket name s).0
unfolding delete_bucket
delete_bucket-IsTracked name s t = elim (Option-cases (get_bucket s name)) [
  | inl e ↦ rw (e, delete_bucket) t
  | inr (b, e) ↦
      rw (e, delete_bucket)
        (same-IsTracked (remove_all name b s) _
          (λ bucket key.
            get_object-erase_bucket name (remove_all name b s) bucket key (emptied-none name b s e))
          refl (remove_all-IsTracked name b s t))
]

pub delete_object-IsTracked :
    (bucket key : Str) (s : MemoryStore) → IsTracked s → IsTracked (delete_object bucket key s).0
unfolding delete_object
delete_object-IsTracked bucket key s t = remove_object-IsTracked bucket key s t

store_object-IsTracked :
    (bucket key : Str) (o : Option Object) (obj : Object) (s : MemoryStore)
    → has_no_nul bucket ≡ true
    → IsTracked s
    → IsTracked (store_object bucket key (exists_in o) obj s)
unfolding store_object
store_object-IsTracked bucket key none obj s h t = insert_object-IsTracked bucket key obj s h t
store_object-IsTracked bucket key (some o) obj s h t =
    insert_object-IsTracked bucket key obj (remove_object bucket key s).0 h
      (remove_object-IsTracked bucket key s t)

pub put_object-IsTracked :
    (md5 : Str → Str) (now : ℕ) (bucket key body : Str) (s : MemoryStore)
    → IsValid s
    → total_bytes s.buckets + length body < half_range
    → has_no_nul bucket ≡ true
    → IsTracked s
    → IsTracked (put_object md5 now bucket key body s).0
put_object-IsTracked md5 now bucket key body s v small h t =
    put_object-cases md5 now bucket key body s v small (λ r. IsTracked r.0)
      (λ e. create_bucket-IsTracked bucket s t)
      (λ s' room. store_object-IsTracked bucket key _ _ s' h (
        rw room.evicted (
          evict_all-IsTracked room.ids (create_bucket bucket s)
            (create_bucket-IsTracked bucket s t))))

empty_tracked : (clean : Bool) → TrackedAt clean false false
empty_tracked true = refl
empty_tracked false = refl

pub new-IsTracked :
    (max_bytes : ℤ) (policy : EvictPolicy) → IsTracked (new_memory_store max_bytes policy)
unfolding new_memory_store get_object member lookup
new-IsTracked max_bytes policy = λ bucket key. empty_tracked (has_no_nul bucket)
