-- ===== src/Examples/Stores.antt =====
-- internal/inmems3/store/store.go on small contents
use rdma_demo.Base.{◌<◌, ◌≡◌, ◌≢◌, refl, inr, ◌⊎◌, none, some, [], ◌∷◌, arith}
use rdma_demo.Base.Int.{pos, ◌<ℤ◌, ◌≤ℤ◌, add64, sub64}
use rdma_demo.Base.Text.{Str, Str-discrete, index_byte}
use rdma_demo.Base.Map.{lookup, insert, erase}
use rdma_demo.InmemStore.State.{
  EvictPolicy, fifo, reject, Object, MemoryStore, capacity_exceeded, ok, err, new_memory_store,
  create_bucket, make_object_id, split_at, split_object_id, get_object, lookup_object_by_id,
  remove_element, unlink, remove_object, evict_object_by_id, detached, link, insert_object,
}
use rdma_demo.InmemStore.Evict.{
  victim_size, choose_victims, evict_all, evict_chosen, make_room, check_limit, ensure_capacity,
}
use rdma_demo.InmemStore.Methods.{
  quoted_md5, new_object, store_object, replace_object, put_object, exists_in,
}
use rdma_demo.InmemStore.Invariant.{IsValid, IsLinked}
use rdma_demo.InmemStore.Promises.{
  target_bytes, victims, put_object_fits, get_object-put_object, get_object-put_object_other,
  put_object_failed,
}
use rdma_demo.InmemStore.History.{Reach, here, next, puts, Reach-IsValid, Reach-IsTracked}
use rdma_demo.InmemStore.Tracking.{has_no_nul, is_queued}
use rdma_demo.InmemStore.Eviction.{Among}

abbrev same_md5 : Str → Str
same_md5 b = b

abbrev bucket_b : Str
bucket_b = 98 ∷ []

abbrev key_k : Str
key_k = 107 ∷ []

abbrev key_l : Str
key_l = 108 ∷ []

abbrev three_bytes : Object
three_bytes = record { body = 1 ∷ 2 ∷ 3 ∷ []; etag = []; last_modified = 5 }

-- One object of three bytes, in a store of ten.
abbrev pub one_object : EvictPolicy → MemoryStore
one_object policy = record {
  buckets = (bucket_b, (key_k, three_bytes) ∷ []) ∷ [];
  max_bytes = pos 10;
  evict_policy = policy;
  used_bytes = pos 3;
  fifo_order = record { handle = 0; id = 98 ∷ 0 ∷ 107 ∷ [] } ∷ [];
  next_handle = 1;
  order_index = (98 ∷ 0 ∷ 107 ∷ [], 0) ∷ [];
}

pub one_object-IsValid : (policy : EvictPolicy) → IsValid (one_object policy)
unfolding lookup Str-discrete
one_object-IsValid policy = record {
  distinct_buckets = (refl, tt);
  distinct_keys = ((refl, tt), tt);
  counted = refl;
  linked = record {
    indexed = (refl, tt);
    distinct_ids = (tt, tt);
    agrees = λ id. refl;
    distinct_handles = (tt, tt);
    below = (omega arith, tt);
  };
}

abbrev eight_bytes : Str
eight_bytes = 1 ∷ 2 ∷ 3 ∷ 4 ∷ 5 ∷ 6 ∷ 7 ∷ 8 ∷ []

-- The write of eight bytes succeeds: it evicts the object of three.
eviction :
    (put_object same_md5 6 bucket_b key_l eight_bytes (one_object fifo)).1
    ≡ ok (new_object same_md5 6 eight_bytes)
unfolding put_object replace_object ensure_capacity check_limit make_room evict_chosen
    choose_victims victim_size evict_all evict_object_by_id remove_object unlink create_bucket
    lookup erase insert get_object split_object_id split_at lookup_object_by_id make_object_id
    index_byte store_object insert_object link detached remove_element add64 sub64 new_object
    quoted_md5 Str-discrete
eviction = refl

rejection :
    (put_object same_md5 6 bucket_b key_l eight_bytes (one_object reject)).1
    ≡ err (capacity_exceeded (pos 8) (pos 3) (pos 10))
unfolding put_object replace_object ensure_capacity check_limit make_room evict_chosen
    choose_victims victim_size evict_all evict_object_by_id remove_object unlink create_bucket
    lookup erase insert get_object split_object_id split_at lookup_object_by_id make_object_id
    index_byte store_object insert_object link detached remove_element add64 sub64 new_object
    quoted_md5 Str-discrete
rejection = refl

put_object_fits_example :
    (put_object same_md5 6 bucket_b key_l eight_bytes (one_object fifo)).0.used_bytes ≤ℤ pos 10
put_object_fits_example =
    put_object_fits same_md5 6 bucket_b key_l eight_bytes (one_object fifo)
      (new_object same_md5 6 eight_bytes) (one_object-IsValid fifo) (omega arith) (omega arith)
      eviction

get_object-put_object_example :
    (get_object bucket_b key_l
        (put_object same_md5 6 bucket_b key_l eight_bytes (one_object fifo)).0
      ≡ some (new_object same_md5 6 eight_bytes))
    × (new_object same_md5 6 eight_bytes ≡ new_object same_md5 6 eight_bytes)
get_object-put_object_example =
    get_object-put_object same_md5 6 bucket_b key_l eight_bytes (one_object fifo)
      (new_object same_md5 6 eight_bytes) (one_object-IsValid fifo) (omega arith) eviction

key_l-ne-key_k : key_k ≢ key_l
key_l-ne-key_k = λ e. ground arith

get_object-put_object_other_example :
    (get_object bucket_b key_k
        (put_object same_md5 6 bucket_b key_l eight_bytes (one_object fifo)).0
      ≡ get_object bucket_b key_k (one_object fifo))
    ⊎ ((get_object bucket_b key_k
            (put_object same_md5 6 bucket_b key_l eight_bytes (one_object fifo)).0
          ≡ none)
        × (fifo ≡ fifo)
        × (pos 0 <ℤ pos 10)
        × (10 < target_bytes bucket_b key_l 8 (one_object fifo))
        × Among (make_object_id bucket_b key_k) (victims bucket_b key_l 8 (one_object fifo)))
get_object-put_object_other_example =
    get_object-put_object_other same_md5 6 bucket_b key_l eight_bytes bucket_b key_k
      (one_object fifo) (one_object-IsValid fifo) (omega arith) (inr key_l-ne-key_k)

put_object_failed_example :
    (get_object bucket_b key_k
        (put_object same_md5 6 bucket_b key_l eight_bytes (one_object reject)).0
      ≡ get_object bucket_b key_k (one_object reject))
    × ((put_object same_md5 6 bucket_b key_l eight_bytes (one_object reject)).0.used_bytes ≡ pos 3)
    × ((put_object same_md5 6 bucket_b key_l eight_bytes (one_object reject)).0.fifo_order
        ≡ record { handle = 0; id = 98 ∷ 0 ∷ 107 ∷ [] } ∷ [])
put_object_failed_example =
    put_object_failed same_md5 6 bucket_b key_l eight_bytes bucket_b key_k (one_object reject)
      (capacity_exceeded (pos 8) (pos 3) (pos 10)) (one_object-IsValid reject) (omega arith)
      rejection

abbrev empty_store : MemoryStore
empty_store = new_memory_store (pos 10) fifo

-- A new store that has served one PutObject.
one_put :
    Reach same_md5 has_no_nul empty_store
      (put_object same_md5 6 bucket_b key_l eight_bytes empty_store).0
unfolding new_memory_store
one_put = next here (puts empty_store 6 bucket_b key_l eight_bytes refl (omega arith))

Reach-IsValid_example : IsValid (put_object same_md5 6 bucket_b key_l eight_bytes empty_store).0
Reach-IsValid_example = Reach-IsValid (pos 10) fifo one_put

Reach-IsTracked_example :
    IsLinked (put_object same_md5 6 bucket_b key_l eight_bytes empty_store).0
    × (exists_in (
          get_object bucket_b key_l
            (put_object same_md5 6 bucket_b key_l eight_bytes empty_store).0)
        ≡ is_queued bucket_b key_l (put_object same_md5 6 bucket_b key_l eight_bytes empty_store).0)
Reach-IsTracked_example = Reach-IsTracked (pos 10) fifo bucket_b key_l one_put refl
