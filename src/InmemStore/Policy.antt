-- ===== src/InmemStore/Policy.antt =====
-- internal/inmems3/store/store.go: calls on a store whose policy is not FIFO, which evict nothing
use rdma_demo.Base.{
  ℕ, ◌+◌, ◌≤◌, ◌<◌, ◌≡◌, ◌≢◌, refl, ◌∙◌, ◌⊎◌, inl, inr, Option, none, some, List, [], ◌∷◌, ite,
  arith, length, Option-cases,
}
use rdma_demo.Base.Int.{half_range}
use rdma_demo.Base.Text.{Str, Str-discrete}
use rdma_demo.Base.Map.{Map}
use rdma_demo.Base.Map.Weight.{weight, weight-erase}
use rdma_demo.InmemStore.State.{
  fifo, Object, MemoryStore, StoreError, ok, err, get_bucket, create_bucket, get_object, unlink,
  link, remove_object, insert_object, evict_object_by_id, make_object_id,
}
use rdma_demo.InmemStore.Evict.{evict_all}
use rdma_demo.InmemStore.Methods.{
  exists_in, new_object, remove_all, store_object, put_object, delete_bucket,
}
use rdma_demo.InmemStore.Invariant.{IsValid, total_bytes, body_size}
use rdma_demo.InmemStore.Removal.{
  dropped, remove_object-cases, total_bytes-remove_object, remove_object-IsValid,
}
use rdma_demo.InmemStore.Insertion.{total_bytes-create_bucket, create_bucket-IsValid}
use rdma_demo.InmemStore.Eviction.{evict-cases}
use rdma_demo.InmemStore.Guarantees.{Result-cases, put_object-cases, stored_facts, after_eviction}
use rdma_demo.InmemStore.Promises.{
  get_object-put_object, get_object-put_object_other, put_object_failed,
}

evict_policy-unlink : (id : Str) (s : MemoryStore) → (unlink id s).evict_policy ≡ s.evict_policy
unfolding unlink
evict_policy-unlink id s = ground arith

evict_policy-remove_object :
    (bucket key : Str) (s : MemoryStore)
    → (remove_object bucket key s).0.evict_policy ≡ s.evict_policy
evict_policy-remove_object bucket key s =
    remove_object-cases (λ r. r.0.evict_policy ≡ s.evict_policy) bucket key s (λ h. refl)
      (λ b obj e k. evict_policy-unlink (make_object_id bucket key) (dropped bucket key b obj s))

evict_policy-evict_all :
    (ids : List Str) (s : MemoryStore) → (evict_all ids s).evict_policy ≡ s.evict_policy
unfolding evict_all
evict_policy-evict_all [] s = refl
evict_policy-evict_all (id ∷ ids) s =
    evict_policy-evict_all ids (evict_object_by_id id s)
    ∙ evict-cases id s (λ t. t.evict_policy ≡ s.evict_policy) (λ _. refl)
        (λ bucket key _. evict_policy-remove_object bucket key s)

evict_policy-store_object :
    (bucket key : Str) (o : Option Object) (obj : Object) (s : MemoryStore)
    → (store_object bucket key (exists_in o) obj s).evict_policy ≡ s.evict_policy
unfolding store_object insert_object link
evict_policy-store_object bucket key none obj s = refl
evict_policy-store_object bucket key (some o) obj s = evict_policy-remove_object bucket key s

pub evict_policy-create_bucket :
    (name : Str) (s : MemoryStore) → (create_bucket name s).evict_policy ≡ s.evict_policy
unfolding create_bucket
evict_policy-create_bucket name s = ground arith

total_bytes-remove_all :
    (bucket : Str) (l : Map Str Object) (s : MemoryStore)
    → IsValid s
    → total_bytes s.buckets < half_range
    → (total_bytes (remove_all bucket l s).buckets ≤ total_bytes s.buckets)
      × IsValid (remove_all bucket l s)
      × ((remove_all bucket l s).evict_policy ≡ s.evict_policy)
unfolding remove_all
total_bytes-remove_all bucket [] s v small = (omega arith, v, refl)
total_bytes-remove_all bucket ((key, o) ∷ l) s v small =
    let bytes = total_bytes-remove_object bucket key s v in
    let (less, v', same) =
      total_bytes-remove_all bucket l (remove_object bucket key s).0
        (remove_object-IsValid bucket key s v small) (omega (arith, bytes)) in
    (omega (arith, less, bytes), v', same ∙ evict_policy-remove_object bucket key s)

-- DeleteBucket adds no bytes, and leaves the policy.
pub delete_bucket_frame :
    (name : Str) (s : MemoryStore)
    → IsValid s
    → total_bytes s.buckets < half_range
    → (total_bytes (delete_bucket name s).0.buckets ≤ total_bytes s.buckets)
      × ((delete_bucket name s).0.evict_policy ≡ s.evict_policy)
unfolding delete_bucket
delete_bucket_frame name s v small = elim (Option-cases (get_bucket s name)) [
  | inl e ↦ rw (e, delete_bucket) (omega arith, refl)
  | inr (b, e) ↦
      let (less, v', same) = total_bytes-remove_all name b s v small in
      let bytes =
        weight-erase Str-discrete (weight body_size) name (remove_all name b s).buckets
          v'.distinct_buckets in
      rw (e, delete_bucket) (omega (arith, less, bytes), same)
]

module _ (md5 : Str → Str) (now : ℕ) (bucket key body : Str) (s : MemoryStore) (v : IsValid s)
    (small : total_bytes s.buckets + length body < half_range) where
  abbrev after : MemoryStore
  after = (put_object md5 now bucket key body s).0

  -- PutObject adds at most the new bytes, and leaves the policy.
  pub put_object_frame :
      (total_bytes after.buckets ≤ total_bytes s.buckets + length body)
      × (after.evict_policy ≡ s.evict_policy)
  put_object_frame =
      put_object-cases md5 now bucket key body s v small
        (λ r.
          (total_bytes r.0.buckets ≤ total_bytes s.buckets + length body)
          × (r.0.evict_policy ≡ s.evict_policy))
        (λ e.
          (omega (arith, total_bytes-create_bucket bucket s), evict_policy-create_bucket bucket s))
        (λ s' room.
          let (_, sum, _) = stored_facts md5 now bucket key body s v small s' room in
          let (_, less, _) =
            after_eviction bucket key (length body) (create_bucket bucket s) s'
              (get_object bucket key (create_bucket bucket s)) refl room
              (create_bucket-IsValid bucket s v)
              (omega (arith, total_bytes-create_bucket bucket s)) in
          let policy : s'.evict_policy ≡ s.evict_policy =
            rw room.evicted (evict_policy-evict_all room.ids (create_bucket bucket s))
            ∙ evict_policy-create_bucket bucket s in
          (
            omega (arith, sum, less, total_bytes-create_bucket bucket s),
            evict_policy-store_object bucket key _ _ s' ∙ policy,
          ))

  put_object_kept :
      s.evict_policy ≢ fifo
      → (bucket' key' : Str) → (bucket' ≢ bucket) ⊎ (key' ≢ key)
      → get_object bucket' key' after ≡ get_object bucket' key' s
  put_object_kept p bucket' key' ne =
      elim (get_object-put_object_other md5 now bucket key body bucket' key' s v small ne) [
        | inl same ↦ same
        | inr gone ↦ absurd (p gone.1)
      ]

  -- PutObject stores the object and changes no other, or fails and changes none.
  pub put_object-reads :
      s.evict_policy ≢ fifo
      → ((o : Object) × ((put_object md5 now bucket key body s).1 ≡ ok o)
          × ((bucket' key' : Str)
              → get_object bucket' key' after
                ≡ ite
                    (Str-discrete bucket bucket')
                    (ite
                      (Str-discrete key key')
                      (some (new_object md5 now body))
                      (get_object bucket' key' s))
                    (get_object bucket' key' s)))
        ⊎ ((e : StoreError) × ((put_object md5 now bucket key body s).1 ≡ err e)
            × ((bucket' key' : Str) → get_object bucket' key' after ≡ get_object bucket' key' s))
  put_object-reads p = elim (Result-cases (put_object md5 now bucket key body s).1) [
    | inl (e, h) ↦ inr (
      e,
      h,
      λ bucket' key'. (put_object_failed md5 now bucket key body bucket' key' s e v small h).0,
    )
    | inr (o, h) ↦
        let (there, made) = get_object-put_object md5 now bucket key body s o v small h in
        inl (o, h, λ bucket' key'. ground (arith, put_object_kept p bucket' key', there, made))
  ]
