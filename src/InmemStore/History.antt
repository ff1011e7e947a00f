-- ===== src/InmemStore/History.antt =====
-- internal/inmems3/store/store.go: any sequence of calls on one store
use rdma_demo.Base.{subst, Bool, true, ◌≡◌, ℕ, ◌+◌, ◌<◌, refl, length}
use rdma_demo.Base.Int.{ℤ, half_range}
use rdma_demo.Base.Text.{Str}
use rdma_demo.Base.Map.{lookup}
use rdma_demo.InmemStore.State.{
  EvictPolicy, MemoryStore, new_memory_store, create_bucket, get_object,
}
use rdma_demo.InmemStore.Methods.{put_object, delete_object, delete_bucket, exists_in}
use rdma_demo.InmemStore.Invariant.{IsValid, IsLinked, total_bytes}
use rdma_demo.InmemStore.Insertion.{create_bucket-IsValid}
use rdma_demo.InmemStore.Promises.{put_object-IsValid}
use rdma_demo.InmemStore.Deletion.{delete_bucket-IsValid, delete_object_lem}
use rdma_demo.InmemStore.Tracking.{
  has_no_nul, is_queued, TrackedAt, IsTracked, create_bucket-IsTracked,
}
use rdma_demo.InmemStore.Calls.{
  new-IsTracked, put_object-IsTracked, delete_object-IsTracked, delete_bucket-IsTracked,
}

-- One call that changes the store; `names` tells the buckets that PutObject is called on. The objects lie in memory, so their bytes fit into an int64.
pub data Step (md5 : Str → Str) (names : Str → Bool) : MemoryStore → MemoryStore → Type 0 where
  creates : (s : MemoryStore) (name : Str) → Step md5 names s (create_bucket name s)
  puts :
      (s : MemoryStore) (now : ℕ) (bucket key body : Str)
      → names bucket ≡ true
      → total_bytes s.buckets + length body < half_range
      → Step md5 names s (put_object md5 now bucket key body s).0
  deletes :
      (s : MemoryStore) (bucket key : Str)
      → total_bytes s.buckets < half_range
      → Step md5 names s (delete_object bucket key s).0
  deletes_bucket :
      (s : MemoryStore) (name : Str)
      → total_bytes s.buckets < half_range
      → Step md5 names s (delete_bucket name s).0

pub data Reach (md5 : Str → Str) (names : Str → Bool) (s : MemoryStore) : MemoryStore → Type 0 where
  here : Reach md5 names s s
  next : {t u : MemoryStore} → Reach md5 names s t → Step md5 names t u → Reach md5 names s u

pub Step-IsValid :
    {md5 : Str → Str} {names : Str → Bool} {s t : MemoryStore}
    → Step md5 names s t
    → IsValid s
    → IsValid t
Step-IsValid (creates s name) v = create_bucket-IsValid name s v
Step-IsValid {md5} (puts s now bucket key body n h) v =
    put_object-IsValid md5 now bucket key body s v h
Step-IsValid (deletes s bucket key h) v = (delete_object_lem bucket key bucket key s v h).0
Step-IsValid (deletes_bucket s name h) v = delete_bucket-IsValid name s v h

pub new-IsValid :
    (max_bytes : ℤ) (policy : EvictPolicy) → IsValid (new_memory_store max_bytes policy)
unfolding new_memory_store lookup
new-IsValid max_bytes policy = record {
  distinct_buckets = tt;
  distinct_keys = tt;
  counted = refl;
  linked = record {
    indexed = tt;
    distinct_ids = tt;
    agrees = λ id. refl;
    distinct_handles = tt;
    below = tt;
  };
}

from_IsValid :
    {md5 : Str → Str} {names : Str → Bool} {s t : MemoryStore}
    → IsValid s
    → Reach md5 names s t
    → IsValid t
from_IsValid v here = v
from_IsValid v (next r st) = Step-IsValid st (from_IsValid v r)

-- Whatever calls a new store has served, its invariant holds: the byte count is exact, no key stands
-- twice, an id has a handle in the index exactly if the queue has an element of that id with that
-- handle, and no two elements share an id or a handle. The bytes must fit into an int64.
pub Reach-IsValid :
    {md5 : Str → Str} {names : Str → Bool} (max_bytes : ℤ) (policy : EvictPolicy) {t : MemoryStore}
    → Reach md5 names (new_memory_store max_bytes policy) t
    → IsValid t
Reach-IsValid max_bytes policy r = from_IsValid (new-IsValid max_bytes policy) r

Step-IsTracked :
    {md5 : Str → Str} {s t : MemoryStore}
    → Step md5 has_no_nul s t
    → IsValid s
    → IsTracked s
    → IsTracked t
Step-IsTracked (creates s name) v k = create_bucket-IsTracked name s k
Step-IsTracked {md5} (puts s now bucket key body n h) v k =
    put_object-IsTracked md5 now bucket key body s v h n k
Step-IsTracked (deletes s bucket key h) v k = delete_object-IsTracked bucket key s k
Step-IsTracked (deletes_bucket s name h) v k = delete_bucket-IsTracked name s k

from_IsTracked :
    {md5 : Str → Str} {s t : MemoryStore}
    → IsValid s
    → IsTracked s
    → Reach md5 has_no_nul s t
    → IsTracked t
from_IsTracked v k here = k
from_IsTracked v k (next r st) = Step-IsTracked st (from_IsValid v r) (from_IsTracked v k r)

-- Whatever calls a new store has served, if no PutObject named a bucket with a NUL, then an object in
-- such a bucket is stored exactly if the index of the eviction queue has its id; the index has an id
-- exactly if the queue has an element of that id, with the handle of that element, and no two
-- elements share an id or a handle. The bytes must fit into an int64.
pub Reach-IsTracked :
    {md5 : Str → Str} (max_bytes : ℤ) (policy : EvictPolicy) {t : MemoryStore} (bucket key : Str)
    → Reach md5 has_no_nul (new_memory_store max_bytes policy) t
    → has_no_nul bucket ≡ true
    → IsLinked t × (exists_in (get_object bucket key t) ≡ is_queued bucket key t)
Reach-IsTracked max_bytes policy {t} bucket key r h = (
  (from_IsValid (new-IsValid max_bytes policy) r).linked,
  subst (λ clean. TrackedAt clean (exists_in (get_object bucket key t)) (is_queued bucket key t)) h
      (from_IsTracked (new-IsValid max_bytes policy) (new-IsTracked max_bytes policy) r bucket key),
)
