-- ===== src/InmemStore/Evict.antt =====
-- internal/inmems3/store/store.go: ensureCapacityLocked
use rdma_demo.Base.{
  ℕ, Bool, true, false, ◌&&◌, Option, none, some, List, [], ◌∷◌, length, if◌then◌else◌,
}
use rdma_demo.Base.Int.{ℤ, pos, leb_ℤ, ltb_ℤ, add64, sub64}
use rdma_demo.Base.Text.{Str, str_eq}
use rdma_demo.InmemStore.State.{
  EvictPolicy, reject, fifo, other, Element, MemoryStore, Result, ok, err, capacity_exceeded,
  unsupported_policy, lookup_object_by_id, evict_object_by_id,
}

-- The size of the object that an element stands for, or `none` where the loop says `continue`.
unfoldable pub victim_size : MemoryStore → Str → Bool → Str → Option ℕ
victim_size s current_id has_current id =
    if has_current && str_eq id current_id
    then none
    else elim (lookup_object_by_id id s) [ none ↦ none | some obj ↦ some (length obj.body) ]

-- The scan from the front of the queue: the bytes that the chosen objects free, and their ids.
unfoldable pub choose_victims : MemoryStore → Str → Bool → ℤ → List Element → ℤ → ℤ × List Str
choose_victims s current_id has_current need_free [] freed = (freed, [])
choose_victims s current_id has_current need_free (e ∷ es) freed = elim (ltb_ℤ freed need_free) [
  | false ↦ (freed, [])
  | true ↦ elim (victim_size s current_id has_current e.id) [
    | none ↦ choose_victims s current_id has_current need_free es freed
    | some n ↦
        let (freed', ids) =
          choose_victims s current_id has_current need_free es (add64 freed (pos n)) in
        (freed', e.id ∷ ids)
  ]
]

unfoldable pub evict_all : List Str → MemoryStore → MemoryStore
evict_all [] s = s
evict_all (id ∷ ids) s = evict_all ids (evict_object_by_id id s)

-- What is done once the victims are known.
unfoldable pub evict_chosen : MemoryStore → ℤ → ℤ → ℤ → ℤ × List Str → Result MemoryStore
evict_chosen s need_free new_size effective_used (freed, ids) =
    if ltb_ℤ freed need_free
    then err (capacity_exceeded new_size effective_used s.max_bytes)
    else ok (evict_all ids s)

unfoldable pub make_room : EvictPolicy → Str → Bool → ℤ → ℤ → ℤ → MemoryStore → Result MemoryStore
make_room reject current_id has_current effective_used target_used new_size s =
    err (capacity_exceeded new_size effective_used s.max_bytes)
make_room fifo current_id has_current effective_used target_used new_size s =
    let need_free = sub64 target_used s.max_bytes in
    evict_chosen s need_free new_size effective_used
      (choose_victims s current_id has_current need_free s.fifo_order (pos 0))
make_room (other name) current_id has_current effective_used target_used new_size s =
    err (unsupported_policy name)

-- The tests against the limit, for the sum that the write would reach.
unfoldable pub check_limit : Str → Bool → ℤ → ℤ → ℤ → MemoryStore → Result MemoryStore
check_limit current_id has_current effective_used target_used new_size s =
    if leb_ℤ s.max_bytes (pos 0)
    then ok s
    else if leb_ℤ target_used s.max_bytes
    then ok s
    else make_room s.evict_policy current_id has_current effective_used target_used new_size s

-- `ok` holds the store after the evictions; an error leaves the store as it was.
unfoldable pub ensure_capacity : Str → Bool → ℤ → ℤ → MemoryStore → Result MemoryStore
ensure_capacity current_id has_current current_size new_size s =
    let effective_used = if has_current then sub64 s.used_bytes current_size else s.used_bytes in
    check_limit current_id has_current effective_used (add64 effective_used new_size) new_size s
