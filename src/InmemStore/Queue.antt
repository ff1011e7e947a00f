-- ===== src/InmemStore/Queue.antt =====
-- internal/inmems3/store/store.go: fifoOrder and orderIndex under removal and insertion
use rdma_demo.Base.{
  ℕ, suc, ◌≡◌, ◌≢◌, refl, sym, ◌∙◌, inl, inr, none, some, List, All, arith, Option-cases,
}
use rdma_demo.Base.Text.{Str, Str-discrete}
use rdma_demo.Base.Map.{lookup, insert, erase, lookup-insert, lookup-erase}
use rdma_demo.InmemStore.State.{Element, MemoryStore, remove_element, unlink, detached, link}
use rdma_demo.InmemStore.Invariant.{
  IsIndexed, HasOtherId, DistinctIds, queued_handle, DistinctHandles, IsBelow, IsLinked,
}
use rdma_demo.InmemStore.Elements.{
  remove_element-All, remove_element-DistinctIds, remove_element-HasOtherId, absent-HasOtherId,
  erase-IsIndexed, insert-IsIndexed, All-append_one, append_one-DistinctIds,
  queued_handle-remove_element, queued_handle_injective, queued-HasOtherId, queued-append_one,
  remove_element-DistinctHandles, append_one-DistinctHandles, IsBelow-suc,
}

-- The queue without the element of an id.
record Detached (id : Str) (s : MemoryStore) (es : List Element) : Type 0 where
  others : All (HasOtherId id) es
  indexed : All (IsIndexed s.order_index) es
  distinct_ids : DistinctIds es
  same : (id' : Str) → id ≢ id' → queued_handle id' es ≡ queued_handle id' s.fifo_order
  distinct_handles : DistinctHandles es
  below : All (IsBelow s.next_handle) es

absent-Detached :
    (id : Str) (s : MemoryStore)
    → IsLinked s
    → lookup Str-discrete id s.order_index ≡ none
    → Detached id s s.fifo_order
absent-Detached id s v e = record {
  others = absent-HasOtherId s.order_index id s.fifo_order e v.indexed;
  indexed = v.indexed;
  distinct_ids = v.distinct_ids;
  same = λ id' _. refl;
  distinct_handles = v.distinct_handles;
  below = v.below;
}

removed-Detached :
    (id : Str) (h : ℕ) (s : MemoryStore)
    → IsLinked s
    → lookup Str-discrete id s.order_index ≡ some h
    → Detached id s (remove_element h s.fifo_order)
removed-Detached id h s v e = record {
  others = remove_element-HasOtherId s.order_index id h s.fifo_order e v.indexed;
  indexed = remove_element-All (IsIndexed s.order_index) h s.fifo_order v.indexed;
  distinct_ids = remove_element-DistinctIds h s.fifo_order v.distinct_ids;
  same = λ id' ne. queued_handle-remove_element id' h s.fifo_order (λ p.
      ne (
        queued_handle_injective id id' h s.fifo_order v.distinct_handles (sym (v.agrees id) ∙ e)
          p));
  distinct_handles = remove_element-DistinctHandles h s.fifo_order v.distinct_handles;
  below = remove_element-All (IsBelow s.next_handle) h s.fifo_order v.below;
}

detached-Detached : (id : Str) (s : MemoryStore) → IsLinked s → Detached id s (detached id s)
unfolding detached
detached-Detached id s v = elim (Option-cases (lookup Str-discrete id s.order_index)) [
  | inl e ↦ rw (e, detached) (absent-Detached id s v e)
  | inr (h, e) ↦ rw (e, detached) (removed-Detached id h s v e)
]

pub link-IsLinked : (id : Str) (s : MemoryStore) → IsLinked s → IsLinked (link id s)
unfolding link
link-IsLinked id s v =
    let d = detached-Detached id s v in
    let x : Element = record { handle = s.next_handle; id = id } in
    record {
      indexed =
          All-append_one (IsIndexed (insert Str-discrete id s.next_handle s.order_index))
            (detached id s) x
            (insert-IsIndexed s.order_index id s.next_handle (detached id s) d.others d.indexed)
            (ground (arith, lookup-insert Str-discrete id id s.next_handle s.order_index));
      distinct_ids = append_one-DistinctIds (detached id s) x d.others d.distinct_ids;
      agrees = λ id'. ground (
        arith,
        lookup-insert Str-discrete id id' s.next_handle s.order_index,
        queued-append_one id' (detached id s) x d.others,
        d.same id',
        v.agrees id',
      );
      distinct_handles = append_one-DistinctHandles (detached id s) x d.below d.distinct_handles;
      below =
          All-append_one (IsBelow (suc s.next_handle)) (detached id s) x
            (IsBelow-suc s.next_handle (detached id s) d.below) (omega arith);
    }

removed-IsLinked :
    (id : Str) (h : ℕ) (s : MemoryStore)
    → IsLinked s
    → lookup Str-discrete id s.order_index ≡ some h
    → IsLinked (record s {
      fifo_order = remove_element h s.fifo_order;
      order_index = erase Str-discrete id s.order_index;
    })
removed-IsLinked id h s v e =
    let d = removed-Detached id h s v e in
    record {
      indexed = erase-IsIndexed s.order_index id (remove_element h s.fifo_order) d.others d.indexed;
      distinct_ids = d.distinct_ids;
      agrees = λ id'. ground (
        arith,
        lookup-erase Str-discrete id id' s.order_index,
        queued-HasOtherId id (remove_element h s.fifo_order) d.others,
        d.same id',
        v.agrees id',
      );
      distinct_handles = d.distinct_handles;
      below = d.below;
    }

pub unlink-IsLinked : (id : Str) (s : MemoryStore) → IsLinked s → IsLinked (unlink id s)
unfolding unlink
unlink-IsLinked id s v = elim (Option-cases (lookup Str-discrete id s.order_index)) [
  | inl e ↦ rw (e, unlink) v
  | inr (h, e) ↦ rw (e, unlink) (removed-IsLinked id h s v e)
]
