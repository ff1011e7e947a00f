-- ===== src/Examples/Loaded.antt =====
-- internal/s3rdmaserver/store/store.go on small contents
use rdma_demo.Base.{◌≡◌, List, [], ◌∷◌}
use rdma_demo.Base.Text.{Str}
use rdma_demo.RdmaStore.{MemoryStore, new_memory_store, put_loaded_object, list_objects}
use rdma_demo.RdmaStore.Runs.{Call, create, put, get, delete, run, replay, view, run_refines}
use rdma_demo.RdmaStore.WellFormed.{IsWellFormed, run-IsWellFormed}
use rdma_demo.RdmaStore.Listing.{IsListing, list_objects_lem}

abbrev pub same_md5 : Str → Str
same_md5 b = b

abbrev pub bucket_b : Str
bucket_b = 98 ∷ []

abbrev pub key_k : Str
key_k = 107 ∷ []

abbrev pub key_l : Str
key_l = 108 ∷ []

abbrev pub abc : Str
abc = 97 ∷ 98 ∷ 99 ∷ []

-- One object, loaded into a new store.
abbrev pub loaded : MemoryStore
loaded = (put_loaded_object same_md5 7 bucket_b key_k abc 0 new_memory_store).0

pub new-IsWellFormed : IsWellFormed new_memory_store
unfolding new_memory_store
new-IsWellFormed = record { names = tt; keys = tt }

pub loaded-IsWellFormed : IsWellFormed loaded
unfolding run
loaded-IsWellFormed =
    run-IsWellFormed same_md5 (put 7 bucket_b key_k abc 0 ∷ []) new_memory_store new-IsWellFormed

abbrev calls : List Call
calls =
    create bucket_b ∷ put 7 bucket_b key_l abc 3 ∷ delete bucket_b key_k ∷ get bucket_b key_l ∷ []

run_refines_example :
    (view (run same_md5 calls loaded).0 ≡ (replay same_md5 calls (view loaded)).0)
    × ((run same_md5 calls loaded).1 ≡ (replay same_md5 calls (view loaded)).1)
run_refines_example = run_refines same_md5 calls loaded

run-IsWellFormed_example : IsWellFormed (run same_md5 calls loaded).0
run-IsWellFormed_example = run-IsWellFormed same_md5 calls loaded loaded-IsWellFormed

list_objects_lem_example : IsListing bucket_b key_k loaded (list_objects bucket_b key_k loaded)
list_objects_lem_example = list_objects_lem bucket_b key_k loaded loaded-IsWellFormed
