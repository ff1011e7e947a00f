-- ===== src/InmemStore.antt =====
-- internal/inmems3/store/store.go: the bounded in-memory object store with FIFO eviction.
-- The mutex makes every exported method one step, so a method is a function on the state. The linked
-- list `fifoOrder` is a list of elements that each carry a handle, and `orderIndex` maps an object's
-- id to the handle, as the source maps it to the element's pointer. `md5` and `now` stand for md5.Sum
-- and time.Now().UTC().
pub mod State
pub mod Evict
pub mod Methods
pub mod Buckets
pub mod Tracking
pub mod Calls
pub mod Policy
pub mod Invariant
pub mod Elements
pub mod Queue
pub mod Ids
pub mod Removal
pub mod Deletion
pub mod History
pub mod Guarantees
pub mod Promises
pub mod Put
pub mod Capacity
pub mod Choice
pub mod Eviction
pub mod Insertion
