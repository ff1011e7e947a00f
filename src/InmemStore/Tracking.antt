-- ===== src/InmemStore/Tracking.antt =====
-- internal/inmems3/store/store.go: which objects the eviction queue has an element for. An id is
-- unambiguous as long as no bucket name holds a NUL.
use rdma_demo.Base.{
  ◌≡◌, refl, Bool, true, false, not, ◌&&◌, ◌==◌, Option, none, some, ite, [], ◌∷◌, arith,
}
use rdma_demo.Base.Text.{Str, Str-discrete}
use rdma_demo.Base.Map.{Map, member, lookup-insert, lookup-erase}
use rdma_demo.InmemStore.State.{
  Object, MemoryStore, create_bucket, make_object_id, get_object, unlink, remove_object, link,
  insert_object,
}
use rdma_demo.InmemStore.Methods.{exists_in}
use rdma_demo.InmemStore.Removal.{dropped, remove_object-cases, get_object-remove_object}
use rdma_demo.InmemStore.Insertion.{get_object-create_bucket, get_object-insert_object}

abbrev pub has_no_nul : Str → Bool
has_no_nul [] = true
has_no_nul (c ∷ cs) = not (c == 0) && has_no_nul cs

-- A bucket and a key, from their id.
make_object_id_injective :
    (bucket bucket' key key' : Str)
    → has_no_nul bucket ≡ true
    → has_no_nul bucket' ≡ true
    → make_object_id bucket key ≡ make_object_id bucket' key'
    → (bucket ≡ bucket') × (key ≡ key')
unfolding make_object_id
make_object_id_injective [] [] key key' h h' e = (refl, ground arith)
make_object_id_injective [] (c ∷ b) key key' h h' e = absurd (ground arith)
make_object_id_injective (c ∷ b) [] key key' h h' e = absurd (ground arith)
make_object_id_injective (c ∷ b) (c' ∷ b') key key' h h' e =
    ground (arith, make_object_id_injective b b' key key')

-- Whether the index has the id of an object.
abbrev pub is_queued : Str → Str → MemoryStore → Bool
is_queued bucket key s = member Str-discrete (make_object_id bucket key) s.order_index

abbrev pub TrackedAt : Bool → Bool → Bool → Type 0
TrackedAt true stored queued = stored ≡ queued
TrackedAt false stored queued = stored ≡ false

-- No bucket whose name holds a NUL has an object, and the index has the ids of exactly the stored objects.
abbrev pub IsTracked : MemoryStore → Type 0
IsTracked s =
    (bucket key : Str)
    → TrackedAt (has_no_nul bucket) (exists_in (get_object bucket key s)) (is_queued bucket key s)

member-unlink :
    (id id' : Str) (s : MemoryStore)
    → member Str-discrete id' (unlink id s).order_index
      ≡ ite (Str-discrete id id') false (member Str-discrete id' s.order_index)
unfolding unlink member
member-unlink id id' s = ground (arith, lookup-erase Str-discrete id id' s.order_index)

unlink-IsTracked :
    (clean : Bool) (bucket key bucket' key' : Str) (o : Option Object) (queued : Bool)
    → has_no_nul bucket ≡ true
    → has_no_nul bucket' ≡ clean
    → TrackedAt clean (exists_in o) queued
    → TrackedAt clean
        (exists_in (ite (Str-discrete bucket bucket') (ite (Str-discrete key key') none o) o))
        (ite (Str-discrete (make_object_id bucket key) (make_object_id bucket' key')) false queued)
unlink-IsTracked false bucket key bucket' key' o queued h h' t = ground arith
unlink-IsTracked true bucket key bucket' key' o queued h h' t =
    ground (arith, make_object_id_injective bucket bucket' key key' h h')

insert-IsTracked :
    (clean : Bool) (bucket key bucket' key' : Str) (obj : Object) (o : Option Object)
    (queued : Bool)
    → has_no_nul bucket ≡ true
    → has_no_nul bucket' ≡ clean
    → TrackedAt clean (exists_in o) queued
    → TrackedAt clean
        (exists_in (ite (Str-discrete bucket bucket') (ite (Str-discrete key key') (some obj) o) o))
        (ite (Str-discrete (make_object_id bucket key) (make_object_id bucket' key')) true queued)
insert-IsTracked false bucket key bucket' key' obj o queued h h' t = ground arith
insert-IsTracked true bucket key bucket' key' obj o queued h h' t =
    ground (arith, make_object_id_injective bucket bucket' key key' h h')

-- An object that is stored is in a bucket without a NUL.
stored_clean :
    (clean : Bool) (o : Option Object) (obj : Object) (queued : Bool)
    → o ≡ some obj
    → TrackedAt clean (exists_in o) queued
    → clean ≡ true
stored_clean true o obj queued e t = refl
stored_clean false o obj queued e t = ground arith

-- The same objects and the same index.
pub same-IsTracked :
    (s s' : MemoryStore)
    → ((bucket key : Str) → get_object bucket key s' ≡ get_object bucket key s)
    → s'.order_index ≡ s.order_index
    → IsTracked s
    → IsTracked s'
same-IsTracked s s' same index t = λ bucket key. rw (same bucket key) (rw index (t bucket key))

pub create_bucket-IsTracked :
    (name : Str) (s : MemoryStore) → IsTracked s → IsTracked (create_bucket name s)
create_bucket-IsTracked name s t =
    same-IsTracked s (create_bucket name s)
      (λ bucket key. get_object-create_bucket name bucket key s)
      (unfold create_bucket in ground arith) t

-- Without an object there is none to remove.
kept_lem :
    (bucket key bucket' key' : Str) (s : MemoryStore)
    → get_object bucket key s ≡ none
    → ite
        (Str-discrete bucket bucket')
        (ite (Str-discrete key key') none (get_object bucket' key' s))
        (get_object bucket' key' s)
      ≡ get_object bucket' key' s
kept_lem bucket key bucket' key' s h = ground arith

is_queued-dropped :
    (bucket key bucket' key' : Str) (b : Map Str Object) (obj : Object) (s : MemoryStore)
    → is_queued bucket' key' (unlink (make_object_id bucket key) (dropped bucket key b obj s))
      ≡ ite
          (Str-discrete (make_object_id bucket key) (make_object_id bucket' key'))
          false
          (is_queued bucket' key' s)
is_queued-dropped bucket key bucket' key' b obj s =
    member-unlink (make_object_id bucket key) (make_object_id bucket' key')
      (dropped bucket key b obj s)

pub remove_object-IsTracked :
    (bucket key : Str) (s : MemoryStore) → IsTracked s → IsTracked (remove_object bucket key s).0
remove_object-IsTracked bucket key s t = λ bucket' key'.
    rw (get_object-remove_object bucket key bucket' key' s) (
      remove_object-cases
        (λ r.
          TrackedAt (has_no_nul bucket')
            (exists_in (
              ite (Str-discrete bucket bucket')
                (ite (Str-discrete key key') none (get_object bucket' key' s))
                (get_object bucket' key' s)))
            (is_queued bucket' key' r.0))
        bucket key s
        (λ h. rw (kept_lem bucket key bucket' key' s (unfold get_object in h)) (t bucket' key'))
        (λ b obj e k. rw (is_queued-dropped bucket key bucket' key' b obj s) (
          unlink-IsTracked (has_no_nul bucket') bucket key bucket' key' (get_object bucket' key' s)
            (is_queued bucket' key' s)
            (stored_clean (has_no_nul bucket) (get_object bucket key s) obj (is_queued bucket key s)
              (unfold get_object in ground arith) (t bucket key))
            refl (t bucket' key'))))

is_queued-insert_object :
    (bucket key bucket' key' : Str) (obj : Object) (s : MemoryStore)
    → is_queued bucket' key' (insert_object bucket key obj s)
      ≡ ite
          (Str-discrete (make_object_id bucket key) (make_object_id bucket' key'))
          true
          (is_queued bucket' key' s)
unfolding insert_object link member
is_queued-insert_object bucket key bucket' key' obj s = ground (
  arith,
  lookup-insert Str-discrete (make_object_id bucket key) (make_object_id bucket' key') s.next_handle
      s.order_index,
)

pub insert_object-IsTracked :
    (bucket key : Str) (obj : Object) (s : MemoryStore)
    → has_no_nul bucket ≡ true
    → IsTracked s
    → IsTracked (insert_object bucket key obj s)
insert_object-IsTracked bucket key obj s h t = λ bucket' key'.
    rw (get_object-insert_object bucket key bucket' key' obj s) (
      rw (is_queued-insert_object bucket key bucket' key' obj s) (
        insert-IsTracked (has_no_nul bucket') bucket key bucket' key' obj
          (get_object bucket' key' s) (is_queued bucket' key' s) h refl (t bucket' key')))
