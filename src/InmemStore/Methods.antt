-- ===== src/InmemStore/Methods.antt =====
-- internal/inmems3/store/store.go: the exported methods
use rdma_demo.Base.{
  ℕ, Bool, true, false, not, ◌&&◌, Option, none, some, List, [], ◌∷◌, ◌++◌, map, length,
  if◌then◌else◌,
}
use rdma_demo.Base.Int.{pos}
use rdma_demo.Base.Text.{Str, Str-discrete, is_empty, has_prefix, str_lt, hex_encode}
use rdma_demo.Base.Map.{Map, lookup, erase}
use rdma_demo.Base.Sort.{sort_by}
use rdma_demo.InmemStore.State.{
  Object, ListedObject, MemoryStore, Result, ok, err, get_bucket, bucket_or_new, make_object_id,
  remove_object, insert_object, create_bucket,
}
use rdma_demo.InmemStore.Evict.{ensure_capacity}

unfoldable pub remove_all : Str → List (Str × Object) → MemoryStore → MemoryStore
remove_all bucket [] s = s
remove_all bucket ((key, obj) ∷ rest) s = remove_all bucket rest (remove_object bucket key s).0

-- The loop ranges over the bucket's map as it was; the order of a Go map is the list's order.
unfoldable pub delete_bucket : Str → MemoryStore → MemoryStore × Bool
delete_bucket name s = elim (get_bucket s name) [
  | none ↦ (s, false)
  | some b ↦
      let s' = remove_all name b s in
      (record s' { buckets = erase Str-discrete name s'.buckets }, true)
]

-- `"` + hex(md5) + `"`
unfoldable pub quoted_md5 : (Str → Str) → Str → Str
quoted_md5 md5 body = (0x22 ∷ hex_encode (md5 body)) ++ 0x22 ∷ []

unfoldable pub new_object : (Str → Str) → ℕ → Str → Object
unfolding quoted_md5
new_object md5 now body = record { body = body; etag = quoted_md5 md5 body; last_modified = now }

-- What PutObject does once there is room.
unfoldable pub store_object : Str → Str → Bool → Object → MemoryStore → MemoryStore
store_object bucket key old_exists obj s =
    insert_object bucket key obj (if old_exists then (remove_object bucket key s).0 else s)

abbrev pub exists_in : Option Object → Bool
exists_in none = false
exists_in (some o) = true

abbrev pub size_of : Option Object → ℕ
size_of none = 0
size_of (some o) = length o.body

unfoldable pub replace_object :
    Str → Str → Object → Option Object → MemoryStore → MemoryStore × Result Object
replace_object bucket key obj old s =
    elim (ensure_capacity (make_object_id bucket key) (exists_in old) (pos (size_of old))
      (pos (length obj.body)) s) [
        | err e ↦ (s, err e)
        | ok s' ↦ (store_object bucket key (exists_in old) obj s', ok obj)
      ]

unfoldable pub put_object :
    (Str → Str) → ℕ → Str → Str → Str → MemoryStore → MemoryStore × Result Object
put_object md5 now bucket key body s =
    replace_object bucket key (new_object md5 now body)
      (lookup Str-discrete key (bucket_or_new bucket s)) (create_bucket bucket s)

unfoldable pub delete_object : Str → Str → MemoryStore → MemoryStore × Bool
delete_object bucket key s = remove_object bucket key s

unfoldable pub listed : Str → Map Str Object → List ListedObject
listed prefix [] = []
listed prefix ((k, v) ∷ rest) =
    if not (is_empty prefix) && not (has_prefix k prefix)
    then listed prefix rest
    else record { key = k; object = v } ∷ listed prefix rest

unfoldable pub list_objects : Str → Str → MemoryStore → Option (List ListedObject)
unfolding listed sort_by
list_objects bucket prefix s = elim (get_bucket s bucket) [
  | none ↦ none
  | some b ↦ some (sort_by (λ x y. str_lt x.key y.key) (listed prefix b))
]

unfoldable pub list_buckets : MemoryStore → List Str
unfolding sort_by
list_buckets s = sort_by str_lt (map (λ e. e.0) s.buckets)
