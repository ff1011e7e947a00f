-- ===== src/InmemStore/Promises.antt =====
-- internal/inmems3/store/store.go: what PutObject promises
use rdma_demo.Base.{
  ℕ, ◌+◌, ◌≤◌, ◌<◌, ◌≡◌, ◌≢◌, refl, ◌⊎◌, inl, inr, none, some, arith, length, ◌-◌, List, ◌∙◌, subst,
}
use rdma_demo.Base.Int.{ℤ, pos, pos_part, sub64, half_range, ◌≤ℤ◌, ◌<ℤ◌}
use rdma_demo.Base.Text.{Str}
use rdma_demo.InmemStore.State.{
  Object, MemoryStore, ok, err, StoreError, create_bucket, get_object, fifo, make_object_id,
}
use rdma_demo.InmemStore.Methods.{new_object, put_object, exists_in, size_of}
use rdma_demo.InmemStore.Invariant.{IsValid, total_bytes}
use rdma_demo.InmemStore.Insertion.{
  create_bucket-IsValid, get_object-create_bucket, max_bytes-create_bucket,
  total_bytes-create_bucket,
}
use rdma_demo.InmemStore.Guarantees.{
  put_object-cases, stored_facts, get_object-stored, kept_or_chosen,
}
use rdma_demo.InmemStore.Evict.{choose_victims}
use rdma_demo.InmemStore.Eviction.{Among}
use rdma_demo.InmemStore.Capacity.{Forced}

-- PutObject keeps the invariant, whether it succeeds or not: no bucket or key stands twice,
-- `used_bytes` is the sum of the sizes of the stored objects, and the queue and its index agree.
-- The condition is that the bytes of the store and of the new body fit into an int64.
pub put_object-IsValid :
    (md5 : Str → Str) (now : ℕ) (bucket key body : Str) (s : MemoryStore)
    → IsValid s
    → total_bytes s.buckets + length body < half_range
    → IsValid (put_object md5 now bucket key body s).0
put_object-IsValid md5 now bucket key body s v small =
    put_object-cases md5 now bucket key body s v small (λ r. IsValid r.0)
      (λ e. create_bucket-IsValid bucket s v)
      (λ s' room. (stored_facts md5 now bucket key body s v small s' room).0)

fits_of_sum :
    (used max : ℤ) (t t' old new : ℕ)
    → used ≡ pos t
    → t + old ≡ t' + new
    → t' + new ≤ pos_part max + old
    → pos 0 <ℤ max
    → used ≤ℤ max
fits_of_sum used max t t' old new e sum fits limited = ground arith

create_bucket_frame :
    (name : Str) (s : MemoryStore)
    → ((create_bucket name s).used_bytes ≡ s.used_bytes)
      × ((create_bucket name s).fifo_order ≡ s.fifo_order)
      × ((create_bucket name s).evict_policy ≡ s.evict_policy)
unfolding create_bucket
create_bucket_frame name s = (ground arith, ground arith, ground arith)

-- A valid store with a limit that accepts an object is within the limit afterwards, under either
-- eviction policy and also if it was above the limit before. The bytes must fit into an int64.
pub put_object_fits :
    (md5 : Str → Str) (now : ℕ) (bucket key body : Str) (s : MemoryStore) (o : Object)
    → IsValid s
    → total_bytes s.buckets + length body < half_range
    → pos 0 <ℤ s.max_bytes
    → (put_object md5 now bucket key body s).1 ≡ ok o
    → (put_object md5 now bucket key body s).0.used_bytes ≤ℤ s.max_bytes
put_object_fits md5 now bucket key body s o v small limited =
    put_object-cases md5 now bucket key body s v small
      (λ r. r.1 ≡ ok o → r.0.used_bytes ≤ℤ s.max_bytes) (λ e h. absurd (ground arith))
      λ s' room h.
        let (v', sum, same) = stored_facts md5 now bucket key body s v small s' room in
        fits_of_sum _ s.max_bytes _ (total_bytes s'.buckets) _ (length body) v'.counted sum
          (ground (arith, room.fits, max_bytes-create_bucket bucket s)) limited

-- A successful PutObject makes the object readable with its body, its ETag and its time, if the
-- store is valid and the bytes fit into an int64.
pub get_object-put_object :
    (md5 : Str → Str) (now : ℕ) (bucket key body : Str) (s : MemoryStore) (o : Object)
    → IsValid s
    → total_bytes s.buckets + length body < half_range
    → (put_object md5 now bucket key body s).1 ≡ ok o
    → (get_object bucket key (put_object md5 now bucket key body s).0 ≡ some o)
      × (o ≡ new_object md5 now body)
get_object-put_object md5 now bucket key body s o v small =
    put_object-cases md5 now bucket key body s v small
      (λ r. r.1 ≡ ok o → (get_object bucket key r.0 ≡ some o) × (o ≡ new_object md5 now body))
      (λ e h. absurd (ground arith))
      λ s' room h.
        ground (arith, get_object-stored md5 now bucket key body s v small s' room bucket key)

-- The bytes that the store would hold if the object came in without an eviction.
abbrev pub target_bytes : Str → Str → ℕ → MemoryStore → ℕ
target_bytes bucket key n s = total_bytes s.buckets - size_of (get_object bucket key s) + n

-- The ids that the scan from the front of the queue chooses for that many new bytes.
abbrev pub victims : Str → Str → ℕ → MemoryStore → List Str
victims bucket key n s =
    (choose_victims (create_bucket bucket s) (make_object_id bucket key)
      (exists_in (get_object bucket key s)) (sub64 (pos (target_bytes bucket key n s)) s.max_bytes)
      s.fifo_order (pos 0)).1

-- What `ensure_capacity` saw, in the store before the call.
as_before_call :
    (bucket key : Str) (n : ℕ) (s : MemoryStore) (id : Str) (ids : List Str)
    → Forced
        (create_bucket bucket s)
        (make_object_id bucket key)
        (exists_in (get_object bucket key (create_bucket bucket s)))
        (size_of (get_object bucket key (create_bucket bucket s)))
        n
        ids
    → Among id ids
    → (s.evict_policy ≡ fifo)
      × (pos 0 <ℤ s.max_bytes)
      × (pos_part s.max_bytes < target_bytes bucket key n s)
      × Among id (victims bucket key n s)
unfolding create_bucket
as_before_call bucket key n s id ids f a =
    let (used, queue, policy) = create_bucket_frame bucket s in
    let (p, limited, over, chosen) =
      rw
        (
          get_object-create_bucket bucket bucket key s,
          total_bytes-create_bucket bucket s,
          max_bytes-create_bucket bucket s,
          queue,
          policy,
        )
        at f in
    (p, limited, over, subst (Among id) chosen a)

-- A PutObject changes no other object, except that under the FIFO policy, when the new object would
-- take a store with a limit beyond it, the objects that the scan from the front of the queue chooses
-- may be gone. The store must be valid and the bytes must fit into an int64.
pub get_object-put_object_other :
    (md5 : Str → Str) (now : ℕ) (bucket key body bucket' key' : Str) (s : MemoryStore)
    → IsValid s
    → total_bytes s.buckets + length body < half_range
    → (bucket' ≢ bucket) ⊎ (key' ≢ key)
    → (get_object bucket' key' (put_object md5 now bucket key body s).0 ≡ get_object bucket' key' s)
      ⊎ ((get_object bucket' key' (put_object md5 now bucket key body s).0 ≡ none)
          × (s.evict_policy ≡ fifo)
          × (pos 0 <ℤ s.max_bytes)
          × (pos_part s.max_bytes < target_bytes bucket key (length body) s)
          × Among (make_object_id bucket' key') (victims bucket key (length body) s))
get_object-put_object_other md5 now bucket key body bucket' key' s v small ne =
    put_object-cases md5 now bucket key body s v small
      (λ r.
        (get_object bucket' key' r.0 ≡ get_object bucket' key' s)
        ⊎ ((get_object bucket' key' r.0 ≡ none)
            × (s.evict_policy ≡ fifo)
            × (pos 0 <ℤ s.max_bytes)
            × (pos_part s.max_bytes < target_bytes bucket key (length body) s)
            × Among (make_object_id bucket' key') (victims bucket key (length body) s)))
      (λ e. inl (get_object-create_bucket bucket bucket' key' s))
      λ s' room.
        let stored : get_object bucket' key' _ ≡ get_object bucket' key' s' =
          ground
            (arith, get_object-stored md5 now bucket key body s v small s' room bucket' key') in
        elim (kept_or_chosen bucket key (length body) (create_bucket bucket s) s'
          (get_object bucket key (create_bucket bucket s)) refl room bucket' key') [
            | inl same ↦ inl (stored ∙ same ∙ get_object-create_bucket bucket bucket' key' s)
            | inr (gone, forced, chosen) ↦
                let (policy, limited, over, among) =
                  as_before_call bucket key (length body) s (make_object_id bucket' key') room.ids
                    forced chosen in
                inr (stored ∙ gone, policy, limited, over, among)
          ]

-- A PutObject that fails changes no object, no count and not the queue, if the store is valid and
-- its bytes and those of the new body fit into an int64.
pub put_object_failed :
    (md5 : Str → Str) (now : ℕ) (bucket key body bucket' key' : Str) (s : MemoryStore)
    (e : StoreError)
    → IsValid s
    → total_bytes s.buckets + length body < half_range
    → (put_object md5 now bucket key body s).1 ≡ err e
    → (get_object bucket' key' (put_object md5 now bucket key body s).0 ≡ get_object bucket' key' s)
      × ((put_object md5 now bucket key body s).0.used_bytes ≡ s.used_bytes)
      × ((put_object md5 now bucket key body s).0.fifo_order ≡ s.fifo_order)
put_object_failed md5 now bucket key body bucket' key' s e v small =
    put_object-cases md5 now bucket key body s v small
      (λ r.
        r.1 ≡ err e
        → (get_object bucket' key' r.0 ≡ get_object bucket' key' s)
          × (r.0.used_bytes ≡ s.used_bytes)
          × (r.0.fifo_order ≡ s.fifo_order))
      (λ e' h.
        let (used, queue, _) = create_bucket_frame bucket s in
        (get_object-create_bucket bucket bucket' key' s, used, queue))
      (λ s' room h. absurd (ground arith))
