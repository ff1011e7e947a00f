-- ===== src/InmemStore/Invariant.antt =====
-- internal/inmems3/store/store.go: what holds of the state between two methods
use rdma_demo.Base.{ℕ, ◌≡◌, ◌≢◌, ◌<◌, Option, none, some, ite, List, [], ◌∷◌, All, length}
use rdma_demo.Base.Int.{pos}
use rdma_demo.Base.Text.{Str, Str-discrete}
use rdma_demo.Base.Map.{Map, lookup, Distinct}
use rdma_demo.Base.Map.Weight.{weight}
use rdma_demo.Base.Map.Values.{AllValues}
use rdma_demo.InmemStore.State.{Object, Element, MemoryStore}

abbrev pub body_size : Object → ℕ
body_size o = length o.body

-- The bytes of all objects that the buckets hold.
abbrev pub total_bytes : Map Str (Map Str Object) → ℕ
total_bytes = weight (weight body_size)

-- The index leads from the element's id to the element.
abbrev pub IsIndexed : Map Str ℕ → Element → Type 0
IsIndexed index e = lookup Str-discrete e.id index ≡ some e.handle

abbrev pub HasOtherId : Str → Element → Type 0
HasOtherId id e = e.id ≢ id

-- No id stands twice in the queue.
abbrev pub DistinctIds : List Element → Type 0
DistinctIds [] = Unit
DistinctIds (e ∷ es) = All (HasOtherId e.id) es × DistinctIds es

-- The handle of the element with an id.
abbrev pub queued_handle : Str → List Element → Option ℕ
queued_handle id [] = none
queued_handle id (e ∷ es) = ite (Str-discrete e.id id) (some e.handle) (queued_handle id es)

abbrev pub HasOtherHandle : ℕ → Element → Type 0
HasOtherHandle h e = e.handle ≢ h

-- No handle stands twice in the queue.
abbrev pub DistinctHandles : List Element → Type 0
DistinctHandles [] = Unit
DistinctHandles (e ∷ es) = All (HasOtherHandle e.handle) es × DistinctHandles es

abbrev pub IsBelow : ℕ → Element → Type 0
IsBelow n e = e.handle < n

-- The queue and its index agree, in both directions; an id has one element and an element its own
-- handle, and the next handle is new.
pub record Linked (index : Map Str ℕ) (es : List Element) (next_handle : ℕ) : Type 0 where
  pub indexed : All (IsIndexed index) es
  pub distinct_ids : DistinctIds es
  pub agrees : (id : Str) → lookup Str-discrete id index ≡ queued_handle id es
  pub distinct_handles : DistinctHandles es
  pub below : All (IsBelow next_handle) es

abbrev pub IsLinked : MemoryStore → Type 0
IsLinked s = Linked s.order_index s.fifo_order s.next_handle

pub record IsValid (s : MemoryStore) : Type 0 where
  pub distinct_buckets : Distinct Str-discrete s.buckets
  pub distinct_keys : AllValues (Distinct Str-discrete) s.buckets
  pub counted : s.used_bytes ≡ pos (total_bytes s.buckets)
  pub linked : IsLinked s
