-- ===== src/RdmaStore.antt =====
-- internal/s3rdmaserver/store/store.go: the store of objects loaded at startup. The mutex makes each
-- method one step. `md5` and `now` stand for md5.Sum and time.Now().UTC(); a time is a number, 0 the
-- zero time.
pub mod Reads
pub mod Runs
pub mod WellFormed
pub mod Listing
pub mod Loader
pub mod Imported
pub mod FileCounts
pub mod LoadCounts
use rdma_demo.Base.{
  ℕ, zero, suc, Bool, true, false, not, ◌&&◌, Option, none, some, List, [], ◌∷◌, ◌++◌, map,
  if◌then◌else◌,
}
use rdma_demo.Base.Text.{Str, Str-discrete, is_empty, has_prefix, str_lt, hex_encode, trim_space}
use rdma_demo.Base.Map.{Map, lookup, insert, erase}
use rdma_demo.Base.Sort.{sort_by}

pub record Object : Type 0 where
  pub body : Str
  pub etag : Str
  pub last_modified : ℕ

pub record ListedObject : Type 0 where
  pub key : Str
  pub object : Object

pub record MemoryStore : Type 0 where
  pub buckets : Map Str (Map Str Object)

unfoldable pub new_memory_store : MemoryStore
new_memory_store = record { buckets = [] }

abbrev pub get_bucket : MemoryStore → Str → Option (Map Str Object)
get_bucket s name = lookup Str-discrete name s.buckets

unfoldable pub create_bucket : Str → MemoryStore → MemoryStore
create_bucket name s = if is_empty (trim_space name) then s else elim (get_bucket s name) [
  | none ↦ record { buckets = insert Str-discrete name [] s.buckets }
  | some b ↦ s
]

unfoldable pub bucket_exists : Str → MemoryStore → Bool
bucket_exists name s = elim (get_bucket s name) [ none ↦ false | some b ↦ true ]

unfoldable pub delete_bucket : Str → MemoryStore → MemoryStore × Bool
delete_bucket name s = elim (get_bucket s name) [
  | none ↦ (s, false)
  | some b ↦ (record { buckets = erase Str-discrete name s.buckets }, true)
]

-- `"` + hex(md5) + `"`
unfoldable pub quoted_md5 : (Str → Str) → Str → Str
quoted_md5 md5 body = (0x22 ∷ hex_encode (md5 body)) ++ 0x22 ∷ []

unfoldable pub normalize_mod_time : ℕ → ℕ → ℕ
normalize_mod_time now zero = now
normalize_mod_time now (suc t) = suc t

unfoldable pub loaded_object : (Str → Str) → ℕ → Str → ℕ → Object
loaded_object md5 now body last_modified = record {
  body = body;
  etag = quoted_md5 md5 body;
  last_modified = normalize_mod_time now last_modified;
}

abbrev bucket_or_new : Str → MemoryStore → Map Str Object
bucket_or_new bucket s = elim (get_bucket s bucket) [ none ↦ [] | some b ↦ b ]

unfoldable pub put_loaded_object :
    (Str → Str) → ℕ → Str → Str → Str → ℕ → MemoryStore → MemoryStore × Object
unfolding loaded_object
put_loaded_object md5 now bucket key body last_modified s =
    let obj = loaded_object md5 now body last_modified in
    (
      record {
        buckets =
            insert Str-discrete bucket (insert Str-discrete key obj (bucket_or_new bucket s))
              s.buckets;
      },
      obj,
    )

unfoldable pub get_object : Str → Str → MemoryStore → Option Object
get_object bucket key s = elim (get_bucket s bucket) [
  | none ↦ none
  | some b ↦ lookup Str-discrete key b
]

unfoldable pub delete_object : Str → Str → MemoryStore → MemoryStore × Bool
delete_object bucket key s = elim (get_bucket s bucket) [
  | none ↦ (s, false)
  | some b ↦ elim (lookup Str-discrete key b) [
    | none ↦ (s, false)
    | some obj ↦
        (record { buckets = insert Str-discrete bucket (erase Str-discrete key b) s.buckets }, true)
  ]
]

unfoldable pub listed : Str → Map Str Object → List ListedObject
listed prefix [] = []
listed prefix ((k, v) ∷ rest) =
    if not (is_empty prefix) && not (has_prefix k prefix)
    then listed prefix rest
    else record { key = k; object = v } ∷ listed prefix rest

unfoldable pub list_objects : Str → Str → MemoryStore → Option (List ListedObject)
unfolding listed
list_objects bucket prefix s = elim (get_bucket s bucket) [
  | none ↦ none
  | some b ↦ some (sort_by (λ x y. str_lt x.key y.key) (listed prefix b))
]

unfoldable pub list_buckets : MemoryStore → List Str
list_buckets s = sort_by str_lt (map (λ e. e.0) s.buckets)
