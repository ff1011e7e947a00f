-- ===== src/InmemStore/Guarantees.antt =====
-- internal/inmems3/store/store.go: the two ways through PutObject
use rdma_demo.Base.{
  ℕ, ◌+◌, ◌≤◌, ◌<◌, ◌≡◌, refl, ◌⊎◌, inl, inr, Option, none, some, arith, length, ◌∙◌, subst, ite,
}
use rdma_demo.Base.Int.{pos, half_range}
use rdma_demo.Base.Text.{Str, Str-discrete}
use rdma_demo.InmemStore.State.{
  Object, MemoryStore, Result, ok, err, StoreError, create_bucket, get_object, make_object_id,
}
use rdma_demo.InmemStore.Evict.{evict_all, ensure_capacity}
use rdma_demo.InmemStore.Methods.{
  new_object, exists_in, size_of, store_object, replace_object, put_object,
}
use rdma_demo.InmemStore.Invariant.{IsValid, total_bytes}
use rdma_demo.InmemStore.Insertion.{
  create_bucket-IsValid, total_bytes-create_bucket, get_object-create_bucket,
  max_bytes-create_bucket,
}
use rdma_demo.InmemStore.Eviction.{
  evict_all-Victims, get_object-evict_all, get_object-evict_all_or_gone, Among, chosen_or_spared,
}
use rdma_demo.InmemStore.Capacity.{Forced, MadeRoom, ensure_capacity-MadeRoom}
use rdma_demo.InmemStore.Put.{
  lookup-bucket_or_new, size_of-le, get_object-store_object, max_bytes-store_object,
  store_object_facts,
}

pub Result-cases :
    {A : Type 0} (r : Result A) → ((e : StoreError) × (r ≡ err e)) ⊎ ((x : A) × (r ≡ ok x))
Result-cases (ok t) = inr (t, refl)
Result-cases (err e) = inl (e, refl)

-- What the evictions leave, for the write that follows them.
module _ (bucket key : Str) (new : ℕ) (s s' : MemoryStore) (old : Option Object)
    (found : get_object bucket key s ≡ old)
    (room : MadeRoom s (make_object_id bucket key) (exists_in old) (size_of old) new s') where
  spared_old : (o : Option Object) → old ≡ o → get_object bucket key (evict_all room.ids s) ≡ o
  spared_old (some o) e =
      get_object-evict_all room.ids s bucket key (room.spared (rw e)) ∙ found ∙ e
  spared_old none e = ground (arith, get_object-evict_all_or_gone room.ids s bucket key)

  found_after : get_object bucket key s' ≡ old
  found_after = rw room.evicted (spared_old old refl)

  get_object_or_gone :
      (bucket' key' : Str)
      → (get_object bucket' key' s' ≡ get_object bucket' key' s)
        ⊎ (get_object bucket' key' s' ≡ none)
  get_object_or_gone bucket' key' =
      rw room.evicted (get_object-evict_all_or_gone room.ids s bucket' key')

  -- An object that the evictions touched was chosen, and room was needed.
  pub kept_or_chosen :
      (bucket' key' : Str)
      → (get_object bucket' key' s' ≡ get_object bucket' key' s)
        ⊎ ((get_object bucket' key' s' ≡ none)
            × Forced s (make_object_id bucket key) (exists_in old) (size_of old) new room.ids
            × Among (make_object_id bucket' key') room.ids)
  kept_or_chosen bucket' key' = elim (chosen_or_spared (make_object_id bucket' key') room.ids) [
    | inl others ↦ inl (rw room.evicted (get_object-evict_all room.ids s bucket' key' others))
    | inr chosen ↦ elim (get_object_or_gone bucket' key') [
      | inl same ↦ inl same
      | inr gone ↦ elim room.cause [
        | inl e ↦ absurd (subst (Among (make_object_id bucket' key')) e chosen)
        | inr forced ↦ inr (gone, forced, chosen)
      ]
    ]
  ]

  pub after_eviction :
      IsValid s
      → total_bytes s.buckets < half_range
      → IsValid s' × (total_bytes s'.buckets ≤ total_bytes s.buckets) × (s'.max_bytes ≡ s.max_bytes)
  after_eviction v small =
      let (v', sum, same) = evict_all-Victims room.ids s room.freed v small room.victims in
      rw room.evicted (v', omega arith, same)

module _ (md5 : Str → Str) (now : ℕ) (bucket key body : Str) (s : MemoryStore) (v : IsValid s)
    (small : total_bytes s.buckets + length body < half_range) where
  abbrev pub object : Object
  object = new_object md5 now body

  abbrev pub before : MemoryStore
  before = create_bucket bucket s

  abbrev pub old : Option Object
  old = get_object bucket key before

  abbrev pub id : Str
  id = make_object_id bucket key

  before_small : total_bytes before.buckets + length body < half_range
  before_small = rw total_bytes-create_bucket small

  made_room :
      (s' : MemoryStore)
      → ensure_capacity id (exists_in old) (pos (size_of old)) (pos (length body)) before ≡ ok s'
      → MadeRoom before id (exists_in old) (size_of old) (length body) s'
  made_room s' h =
      ensure_capacity-MadeRoom before id (exists_in old) (size_of old) (length body) s'
        (create_bucket-IsValid bucket s v) before_small
        (size_of-le bucket key before (create_bucket-IsValid bucket s v)) (ground arith) h

  pub put_object-cases {ℓ} :
      (P : MemoryStore × Result Object → Type ℓ)
      → ((e : StoreError) → P (before, err e))
      → ((s' : MemoryStore)
          → MadeRoom before id (exists_in old) (size_of old) (length body) s'
          → P (store_object bucket key (exists_in old) object s', ok object))
      → P (put_object md5 now bucket key body s)
  unfolding put_object replace_object new_object
  put_object-cases P failed done =
      rw
        (
          put_object,
          lookup-bucket_or_new bucket key s,
          ← get_object-create_bucket bucket bucket key s,
        )
        (elim (Result-cases
          (ensure_capacity id (exists_in old) (pos (size_of old)) (pos (length body)) before)) [
            | inl (e, h) ↦ rw (replace_object, h) (failed e)
            | inr (s', h) ↦ rw (replace_object, h) (done s' (made_room s' h))
          ])

  pub stored_facts :
      (s' : MemoryStore)
      → MadeRoom before id (exists_in old) (size_of old) (length body) s'
      → IsValid (store_object bucket key (exists_in old) object s')
        × (total_bytes (store_object bucket key (exists_in old) object s').buckets + size_of old
            ≡ total_bytes s'.buckets + length body)
        × ((store_object bucket key (exists_in old) object s').max_bytes ≡ s.max_bytes)
  unfolding new_object
  stored_facts s' room =
      let (v', le, same) =
        after_eviction bucket key (length body) before s' old refl room
          (create_bucket-IsValid bucket s v) (omega (arith, before_small)) in
      let found = found_after bucket key (length body) before s' old refl room in
      let (v'', sum) =
        store_object_facts bucket key object s' old found v' (omega (arith, before_small)) in
      (
        v'',
        sum,
        max_bytes-store_object bucket key object s' old found
            ∙ same
            ∙ max_bytes-create_bucket bucket s,
      )

  pub get_object-stored :
      (s' : MemoryStore)
      → MadeRoom before id (exists_in old) (size_of old) (length body) s'
      → (bucket' key' : Str)
      → get_object bucket' key' (store_object bucket key (exists_in old) object s')
        ≡ ite
            (Str-discrete bucket bucket')
            (ite (Str-discrete key key') (some object) (get_object bucket' key' s'))
            (get_object bucket' key' s')
  get_object-stored s' room =
      get_object-store_object bucket key object s' old
        (found_after bucket key (length body) before s' old refl room)
