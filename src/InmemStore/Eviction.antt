-- ===== src/InmemStore/Eviction.antt =====
-- internal/inmems3/store/store.go: evictObjectByIDLocked, for one id and for a list of ids
use rdma_demo.Base.{
  ℕ, ◌+◌, ◌<◌, ◌≡◌, ◌≢◌, refl, ◌⊎◌, inl, inr, none, some, List, [], ◌∷◌, All, arith, sym, ◌∙◌,
  length, Option-cases,
}
use rdma_demo.Base.Int.{half_range}
use rdma_demo.Base.Text.{Str, Str-discrete}
use rdma_demo.Base.Map.Weight.{weight_of}
use rdma_demo.InmemStore.State.{
  Object, MemoryStore, make_object_id, split_object_id, get_object, lookup_object_by_id,
  remove_object, evict_object_by_id,
}
use rdma_demo.InmemStore.Evict.{evict_all}
use rdma_demo.InmemStore.Ids.{make_object_id-split_object_id}
use rdma_demo.InmemStore.Invariant.{body_size, total_bytes, IsValid}
use rdma_demo.InmemStore.Removal.{
  get_object-remove_object, total_bytes-remove_object, remove_object-IsValid,
  max_bytes-remove_object,
}

module _ (id : Str) (s : MemoryStore) where
  -- Eviction by an id is a removal, or nothing.
  pub evict-cases {ℓ} :
      (P : MemoryStore → Type ℓ)
      → (split_object_id id ≡ none → P s)
      → ((bucket key : Str)
          → split_object_id id ≡ some (bucket, key)
          → P (remove_object bucket key s).0)
      → P (evict_object_by_id id s)
  unfolding evict_object_by_id
  evict-cases P kept gone = elim (Option-cases (split_object_id id)) [
    | inl e ↦ rw (e, evict_object_by_id) (kept e)
    | inr ((bucket, key), e) ↦ rw (e, evict_object_by_id) (gone bucket key e)
  ]

  evict-IsValid : IsValid s → total_bytes s.buckets < half_range → IsValid (evict_object_by_id id s)
  evict-IsValid v small =
      evict-cases IsValid (λ _. v) (λ bucket key _. remove_object-IsValid bucket key s v small)

  max_bytes-evict : (evict_object_by_id id s).max_bytes ≡ s.max_bytes
  max_bytes-evict =
      evict-cases (λ t. t.max_bytes ≡ s.max_bytes) (λ _. refl)
        (λ bucket key _. max_bytes-remove_object bucket key s)

  total_bytes-evict :
      IsValid s
      → total_bytes (evict_object_by_id id s).buckets
          + weight_of body_size (lookup_object_by_id id s)
        ≡ total_bytes s.buckets
  unfolding lookup_object_by_id
  total_bytes-evict v =
      evict-cases
        (λ t.
          total_bytes t.buckets + weight_of body_size (lookup_object_by_id id s)
          ≡ total_bytes s.buckets)
        (λ e. ground arith)
        (λ bucket key e. ground (arith, total_bytes-remove_object bucket key s v))

  -- No other object is touched.
  get_object-evict :
      (bucket key : Str)
      → make_object_id bucket key ≢ id
      → get_object bucket key (evict_object_by_id id s) ≡ get_object bucket key s
  get_object-evict bucket key ne =
      evict-cases (λ t. get_object bucket key t ≡ get_object bucket key s) (λ _. refl)
        λ b k e. ground (
          arith,
          get_object-remove_object b k bucket key s,
          make_object_id-split_object_id id b k e,
        )

  get_object-evict_or_gone :
      (bucket key : Str)
      → (get_object bucket key (evict_object_by_id id s) ≡ get_object bucket key s)
        ⊎ (get_object bucket key (evict_object_by_id id s) ≡ none)
  get_object-evict_or_gone bucket key =
      evict-cases
        (λ t.
          (get_object bucket key t ≡ get_object bucket key s) ⊎ (get_object bucket key t ≡ none))
        (λ _. inl refl) (λ b k e. ground (arith, get_object-remove_object b k bucket key s))

  lookup-evict :
      (id' : Str)
      → id' ≢ id
      → lookup_object_by_id id' (evict_object_by_id id s) ≡ lookup_object_by_id id' s
  unfolding lookup_object_by_id
  lookup-evict id' ne = elim (Option-cases (split_object_id id')) [
    | inl e ↦ ground arith
    | inr ((bucket, key), e) ↦
        ground (arith, get_object-evict bucket key, make_object_id-split_object_id id' bucket key e)
  ]

abbrev pub Differs : Str → Str → Type 0
Differs id j = j ≢ id

abbrev pub Among : Str → List Str → Type 0
Among id [] = ⊥
Among id (j ∷ ids) = (j ≡ id) ⊎ Among id ids

pub chosen_or_spared : (id : Str) (ids : List Str) → All (Differs id) ids ⊎ Among id ids
chosen_or_spared id [] = inl tt
chosen_or_spared id (j ∷ ids) = elim (Str-discrete j id) [
  | yes e ↦ inr (inl e)
  | no ne ↦ elim (chosen_or_spared id ids) [ inl others ↦ inl (ne, others) | inr a ↦ inr (inr a) ]
]

-- The ids name objects of the store, no id twice, with that many bytes in all.
abbrev pub Victims : MemoryStore → List Str → ℕ → Type 0
Victims s [] n = n ≡ 0
Victims s (id ∷ ids) n =
    (obj : Object) × (r : ℕ) × (lookup_object_by_id id s ≡ some obj)
    × (n ≡ length obj.body + r)
    × All (Differs id) ids
    × Victims s ids r

Victims-evict :
    (id : Str) (s : MemoryStore) (ids : List Str) (n : ℕ)
    → All (Differs id) ids
    → Victims s ids n
    → Victims (evict_object_by_id id s) ids n
Victims-evict id s [] n o v = v
Victims-evict id s (j ∷ ids) n o (obj, r, found, sum, others, rest) =
    (obj, r, lookup-evict id s j o.0 ∙ found, sum, others, Victims-evict id s ids r o.1 rest)

-- Evicting victims frees their bytes and keeps the invariant.
pub evict_all-Victims :
    (ids : List Str) (s : MemoryStore) (n : ℕ)
    → IsValid s
    → total_bytes s.buckets < half_range
    → Victims s ids n
    → IsValid (evict_all ids s)
      × (total_bytes (evict_all ids s).buckets + n ≡ total_bytes s.buckets)
      × ((evict_all ids s).max_bytes ≡ s.max_bytes)
unfolding evict_all
evict_all-Victims [] s n v small e = (v, omega arith, refl)
evict_all-Victims (id ∷ ids) s n v small (obj, r, found, sum, others, rest) =
    let bytes = total_bytes-evict id s v in
    let (v', sum', max') =
      evict_all-Victims ids (evict_object_by_id id s) r (evict-IsValid id s v small) (omega arith)
        (Victims-evict id s ids r others rest) in
    (v', ground arith, max' ∙ max_bytes-evict id s)

pub get_object-evict_all :
    (ids : List Str) (s : MemoryStore) (bucket key : Str)
    → All (Differs (make_object_id bucket key)) ids
    → get_object bucket key (evict_all ids s) ≡ get_object bucket key s
unfolding evict_all
get_object-evict_all [] s bucket key o = refl
get_object-evict_all (id ∷ ids) s bucket key o =
    get_object-evict_all ids (evict_object_by_id id s) bucket key o.1
    ∙ get_object-evict id s bucket key (λ e. o.0 (sym e))

pub get_object-evict_all_or_gone :
    (ids : List Str) (s : MemoryStore) (bucket key : Str)
    → (get_object bucket key (evict_all ids s) ≡ get_object bucket key s)
      ⊎ (get_object bucket key (evict_all ids s) ≡ none)
unfolding evict_all
get_object-evict_all_or_gone [] s bucket key = inl refl
get_object-evict_all_or_gone (id ∷ ids) s bucket key = ground (
  arith,
  get_object-evict_all_or_gone ids (evict_object_by_id id s) bucket key,
  get_object-evict_or_gone id s bucket key,
)
