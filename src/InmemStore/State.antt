-- ===== src/InmemStore/State.antt =====
-- internal/inmems3/store/store.go: the state, and the helpers that run under the lock
use rdma_demo.Base.{
  ℕ, zero, suc, Bool, true, false, Option, none, some, List, [], ◌∷◌, ◌++◌, ite, length, take, drop,
  ℕ_discrete,
}
use rdma_demo.Base.Int.{ℤ, pos, add64, sub64}
use rdma_demo.Base.Text.{Str, Str-discrete, index_byte}
use rdma_demo.Base.Map.{Map, lookup, insert, erase}

pub data EvictPolicy : Type 0 where
  reject fifo : EvictPolicy
  other : Str → EvictPolicy

pub record Object : Type 0 where
  pub body : Str
  pub etag : Str
  pub last_modified : ℕ

pub record ListedObject : Type 0 where
  pub key : Str
  pub object : Object

pub record Element : Type 0 where
  pub handle : ℕ
  pub id : Str

pub record MemoryStore : Type 0 where
  pub buckets : Map Str (Map Str Object)
  pub max_bytes : ℤ
  pub evict_policy : EvictPolicy
  pub used_bytes : ℤ
  pub fifo_order : List Element
  pub next_handle : ℕ
  pub order_index : Map Str ℕ

pub data StoreError : Type 0 where
  capacity_exceeded : ℤ → ℤ → ℤ → StoreError
  unsupported_policy : Str → StoreError

pub data Result (A : Type 0) : Type 0 where
  ok : A → Result A
  err : StoreError → Result A

abbrev pub get_bucket : MemoryStore → Str → Option (Map Str Object)
get_bucket s name = lookup Str-discrete name s.buckets

unfoldable pub new_memory_store : ℤ → EvictPolicy → MemoryStore
new_memory_store max_bytes policy = record {
  buckets = [];
  max_bytes = max_bytes;
  evict_policy = policy;
  used_bytes = pos 0;
  fifo_order = [];
  next_handle = 0;
  order_index = [];
}

unfoldable pub create_bucket : Str → MemoryStore → MemoryStore
create_bucket name s = elim (get_bucket s name) [
  | none ↦ record s { buckets = insert Str-discrete name [] s.buckets }
  | some b ↦ s
]

unfoldable pub bucket_exists : Str → MemoryStore → Bool
bucket_exists name s = elim (get_bucket s name) [ none ↦ false | some b ↦ true ]

unfoldable pub make_object_id : Str → Str → Str
make_object_id bucket key = bucket ++ 0 ∷ key

-- id[:idx] and id[idx+1:] for idx > 0
unfoldable pub split_at : Str → ℕ → Option (Str × Str)
split_at id zero = none
split_at id (suc k) = some (take (suc k) id, drop (suc (suc k)) id)

unfoldable pub split_object_id : Str → Option (Str × Str)
unfolding split_at
split_object_id id = elim (index_byte id 0) [ none ↦ none | some i ↦ split_at id i ]

unfoldable pub get_object : Str → Str → MemoryStore → Option Object
get_object bucket key s = elim (get_bucket s bucket) [
  | none ↦ none
  | some b ↦ lookup Str-discrete key b
]

unfoldable pub lookup_object_by_id : Str → MemoryStore → Option Object
lookup_object_by_id id s = elim (split_object_id id) [
  | none ↦ none
  | some (bucket, key) ↦ get_object bucket key s
]

-- list.Remove: the element that the handle names leaves the list
unfoldable pub remove_element : ℕ → List Element → List Element
remove_element h [] = []
remove_element h (e ∷ es) =
    ite (ℕ_discrete e.handle h) (remove_element h es) (e ∷ remove_element h es)

-- fifoOrder.Remove and delete(orderIndex, id), if the index has the id
unfoldable pub unlink : Str → MemoryStore → MemoryStore
unfolding remove_element
unlink id s = elim (lookup Str-discrete id s.order_index) [
  | none ↦ s
  | some h ↦ record s {
    fifo_order = remove_element h s.fifo_order;
    order_index = erase Str-discrete id s.order_index;
  }
]

unfoldable pub remove_object : Str → Str → MemoryStore → MemoryStore × Bool
remove_object bucket key s = elim (get_bucket s bucket) [
  | none ↦ (s, false)
  | some b ↦ elim (lookup Str-discrete key b) [
    | none ↦ (s, false)
    | some obj ↦ (
      unlink (make_object_id bucket key) (record s {
        buckets = insert Str-discrete bucket (erase Str-discrete key b) s.buckets;
        used_bytes = sub64 s.used_bytes (pos (length obj.body));
      }),
      true,
    )
  ]
]

unfoldable pub evict_object_by_id : Str → MemoryStore → MemoryStore
evict_object_by_id id s = elim (split_object_id id) [
  | none ↦ s
  | some (bucket, key) ↦ (remove_object bucket key s).0
]

-- The bucket that a write goes to: what is there, or an empty map that is stored at once.
abbrev pub bucket_or_new : Str → MemoryStore → Map Str Object
bucket_or_new bucket s = elim (get_bucket s bucket) [ none ↦ [] | some b ↦ b ]

-- fifoOrder.Remove of the element that the index has for the id
unfoldable pub detached : Str → MemoryStore → List Element
unfolding remove_element
detached id s = elim (lookup Str-discrete id s.order_index) [
  | none ↦ s.fifo_order
  | some h ↦ remove_element h s.fifo_order
]

-- The rest of insertObjectLocked: PushBack, and orderIndex[id] = element
unfoldable pub link : Str → MemoryStore → MemoryStore
link id s = record s {
  fifo_order = detached id s ++ record { handle = s.next_handle; id = id } ∷ [];
  next_handle = suc s.next_handle;
  order_index = insert Str-discrete id s.next_handle s.order_index;
}

unfoldable pub insert_object : Str → Str → Object → MemoryStore → MemoryStore
insert_object bucket key obj s = link (make_object_id bucket key) (record s {
  buckets =
      insert Str-discrete bucket (insert Str-discrete key obj (bucket_or_new bucket s)) s.buckets;
  used_bytes = add64 s.used_bytes (pos (length obj.body));
})
