-- ===== src/InmemStore/Elements.antt =====
-- internal/inmems3/store/store.go: the elements of fifoOrder, when one is removed or appended
use rdma_demo.Base.{ℕ, suc, ◌≡◌, ◌≢◌, refl, ite, none, some, List, [], ◌∷◌, ◌++◌, All, arith}
use rdma_demo.Base.Text.{Str, Str-discrete}
use rdma_demo.Base.Map.{Map, lookup, insert, erase, lookup-insert, lookup-erase}
use rdma_demo.InmemStore.State.{Element, remove_element}
use rdma_demo.InmemStore.Invariant.{
  IsIndexed, HasOtherId, DistinctIds, queued_handle, HasOtherHandle, DistinctHandles, IsBelow,
}

-- Any property of all elements survives a removal.
pub remove_element-All :
    (P : Element → Type 0) (h : ℕ) (es : List Element) → All P es → All P (remove_element h es)
unfolding remove_element
remove_element-All P h [] a = tt
remove_element-All P h (e ∷ es) a = ground (arith, remove_element-All P h es a.1)

pub remove_element-DistinctIds :
    (h : ℕ) (es : List Element) → DistinctIds es → DistinctIds (remove_element h es)
unfolding remove_element
remove_element-DistinctIds h [] d = tt
remove_element-DistinctIds h (e ∷ es) d =
    ground
      (arith, remove_element-DistinctIds h es d.1, remove_element-All (HasOtherId e.id) h es d.0)

-- The removal by the indexed handle leaves no element with the id.
pub remove_element-HasOtherId :
    (index : Map Str ℕ) (id : Str) (h : ℕ) (es : List Element)
    → lookup Str-discrete id index ≡ some h
    → All (IsIndexed index) es
    → All (HasOtherId id) (remove_element h es)
unfolding remove_element
remove_element-HasOtherId index id h [] e a = tt
remove_element-HasOtherId index id h (x ∷ es) e a =
    ground (arith, remove_element-HasOtherId index id h es e a.1)

pub absent-HasOtherId :
    (index : Map Str ℕ) (id : Str) (es : List Element)
    → lookup Str-discrete id index ≡ none
    → All (IsIndexed index) es
    → All (HasOtherId id) es
absent-HasOtherId index id [] e a = tt
absent-HasOtherId index id (x ∷ es) e a = ground (arith, absent-HasOtherId index id es e a.1)

pub erase-IsIndexed :
    (index : Map Str ℕ) (id : Str) (es : List Element)
    → All (HasOtherId id) es
    → All (IsIndexed index) es
    → All (IsIndexed (erase Str-discrete id index)) es
erase-IsIndexed index id [] o a = tt
erase-IsIndexed index id (x ∷ es) o a =
    ground (arith, erase-IsIndexed index id es o.1 a.1, lookup-erase Str-discrete id x.id index)

pub insert-IsIndexed :
    (index : Map Str ℕ) (id : Str) (h : ℕ) (es : List Element)
    → All (HasOtherId id) es
    → All (IsIndexed index) es
    → All (IsIndexed (insert Str-discrete id h index)) es
insert-IsIndexed index id h [] o a = tt
insert-IsIndexed index id h (x ∷ es) o a =
    ground
      (arith, insert-IsIndexed index id h es o.1 a.1, lookup-insert Str-discrete id x.id h index)

pub All-append_one :
    (P : Element → Type 0) (es : List Element) (x : Element) → All P es → P x → All P (es ++ x ∷ [])
All-append_one P [] x a p = (p, tt)
All-append_one P (e ∷ es) x a p = (a.0, All-append_one P es x a.1 p)

pub append_one-DistinctIds :
    (es : List Element) (x : Element)
    → All (HasOtherId x.id) es
    → DistinctIds es
    → DistinctIds (es ++ x ∷ [])
append_one-DistinctIds [] x o d = (tt, tt)
append_one-DistinctIds (e ∷ es) x o d = (
  All-append_one (HasOtherId e.id) es x d.0 (λ p. o.0 (rw p)),
  append_one-DistinctIds es x o.1 d.1,
)

-- A removal by a handle changes nothing for an id whose element has another.
pub queued_handle-remove_element :
    (id : Str) (h : ℕ) (es : List Element)
    → queued_handle id es ≢ some h
    → queued_handle id (remove_element h es) ≡ queued_handle id es
unfolding remove_element
queued_handle-remove_element id h [] n = refl
queued_handle-remove_element id h (e ∷ es) n = ground (arith, queued_handle-remove_element id h es)

queued-HasOtherHandle :
    (id : Str) (h : ℕ) (es : List Element)
    → All (HasOtherHandle h) es
    → queued_handle id es ≢ some h
queued-HasOtherHandle id h [] a e = ground arith
queued-HasOtherHandle id h (x ∷ es) a e = ground (arith, queued-HasOtherHandle id h es a.1)

-- A handle belongs to one id.
pub queued_handle_injective :
    (id id' : Str) (h : ℕ) (es : List Element)
    → DistinctHandles es
    → queued_handle id es ≡ some h
    → queued_handle id' es ≡ some h
    → id ≡ id'
queued_handle_injective id id' h [] d e e' = absurd (ground arith)
queued_handle_injective id id' h (x ∷ es) d e e' = ground (
  arith,
  queued-HasOtherHandle id x.handle es d.0,
  queued-HasOtherHandle id' x.handle es d.0,
  queued_handle_injective id id' h es d.1,
)

pub queued-HasOtherId :
    (id : Str) (es : List Element) → All (HasOtherId id) es → queued_handle id es ≡ none
queued-HasOtherId id [] a = refl
queued-HasOtherId id (x ∷ es) a = ground (arith, queued-HasOtherId id es a.1)

pub queued-append_one :
    (id : Str) (es : List Element) (x : Element)
    → All (HasOtherId x.id) es
    → queued_handle id (es ++ x ∷ [])
      ≡ ite (Str-discrete x.id id) (some x.handle) (queued_handle id es)
queued-append_one id [] x a = refl
queued-append_one id (e ∷ es) x a = ground (arith, queued-append_one id es x a.1)

pub remove_element-DistinctHandles :
    (h : ℕ) (es : List Element) → DistinctHandles es → DistinctHandles (remove_element h es)
unfolding remove_element
remove_element-DistinctHandles h [] d = tt
remove_element-DistinctHandles h (e ∷ es) d = ground (
  arith,
  remove_element-DistinctHandles h es d.1,
  remove_element-All (HasOtherHandle e.handle) h es d.0,
)

pub append_one-DistinctHandles :
    (es : List Element) (x : Element)
    → All (IsBelow x.handle) es
    → DistinctHandles es
    → DistinctHandles (es ++ x ∷ [])
append_one-DistinctHandles [] x b d = (tt, tt)
append_one-DistinctHandles (e ∷ es) x b d = (
  All-append_one (HasOtherHandle e.handle) es x d.0 (λ p. omega (arith, p, b.0)),
  append_one-DistinctHandles es x b.1 d.1,
)

pub IsBelow-suc : (n : ℕ) (es : List Element) → All (IsBelow n) es → All (IsBelow (suc n)) es
IsBelow-suc n [] a = tt
IsBelow-suc n (e ∷ es) a = (omega (arith, a.0), IsBelow-suc n es a.1)
