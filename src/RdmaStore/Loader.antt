-- ===== src/RdmaStore/Loader.antt =====
-- internal/s3rdmaserver/store/loader.go: the import of a directory tree into the store at startup.
-- The file system is what os.Stat, os.ReadDir and filepath.WalkDir say of it; a walk is the sequence of
-- calls of its callback. `clock n` is the time at which the object number n is stored.
use rdma_demo.Base.{
  ℕ, Bool, true, false, Option, none, some, List, [], ◌∷◌, ◌++◌, length, if◌then◌else◌,
}
use rdma_demo.Base.Int.{ℤ, pos, add64}
use rdma_demo.Base.Text.{Str, is_empty, trim_space, str_lt}
use rdma_demo.Base.Sort.{sort_by}
use rdma_demo.RdmaStore.{MemoryStore, create_bucket, put_loaded_object}

pub record LoadResult : Type 0 where
  pub buckets : List Str
  pub buckets_loaded : ℤ
  pub objects_loaded : ℤ
  pub bytes_loaded : ℤ

pub record PendingObject : Type 0 where
  pub key : Str
  pub body : Str
  pub last_modified : ℕ

-- A call of the callback: with an error, for a directory or a file that is not regular, or for a
-- regular file, with what ReadFile, Info and Rel return.
pub data Visit : Type 0 where
  walk_error skipped : Visit
  regular : Option Str → Option ℕ → Option Str → Visit

pub record DirEntry : Type 0 where
  pub name : Str
  pub is_dir : Bool

pub record FileSystem : Type 0 where
  -- `none` if os.Stat fails, else whether the path is a directory
  pub stat : Str → Option Bool
  pub read_dir : Str → Option (List DirEntry)
  -- the walk of the entry with this name in the root
  pub walk : Str → Str → List Visit

pub data LoadError : Type 0 where
  empty_root stat_failed not_directory read_dir_failed : LoadError
  bucket_failed : Str → LoadError

-- The callback for a regular file.
unfoldable pub pending_object : Option Str → Option ℕ → Option Str → Option PendingObject
pending_object none modified rel = none
pending_object (some body) none rel = none
pending_object (some body) (some modified) none = none
pending_object (some body) (some modified) (some rel) =
    some (record { key = rel; body = body; last_modified = modified })

-- The walk: the objects so far, `none` on the first error.
unfoldable pub walk_objects : List Visit → List PendingObject → Option (List PendingObject)
unfolding pending_object
walk_objects [] objects = some objects
walk_objects (walk_error ∷ rest) objects = none
walk_objects (skipped ∷ rest) objects = walk_objects rest objects
walk_objects (regular body modified rel ∷ rest) objects = elim (pending_object body modified rel) [
  | none ↦ none
  | some obj ↦ walk_objects rest (objects ++ obj ∷ [])
]

unfoldable pub load_bucket_objects : List Visit → Option (List PendingObject)
unfolding walk_objects
load_bucket_objects visits = elim (walk_objects visits []) [
  | none ↦ none
  | some objects ↦ some (sort_by (λ x y. str_lt x.key y.key) objects)
]

abbrev pub nothing_loaded : LoadResult
nothing_loaded = record {
  buckets = [];
  buckets_loaded = pos 0;
  objects_loaded = pos 0;
  bytes_loaded = pos 0;
}

module _ (md5 : Str → Str) (clock : ℤ → ℕ) where
  -- The loop over the objects of a bucket.
  unfoldable pub store_objects :
      Str → List PendingObject → LoadResult → MemoryStore → MemoryStore × LoadResult
  store_objects bucket [] result s = (s, result)
  store_objects bucket (obj ∷ objects) result s =
      let now = clock result.objects_loaded in
      let s' = (put_loaded_object md5 now bucket obj.key obj.body obj.last_modified s).0 in
      store_objects bucket objects
        (record result {
          objects_loaded = add64 result.objects_loaded (pos 1);
          bytes_loaded = add64 result.bytes_loaded (pos (length obj.body));
        })
        s'

  -- One bucket that was read.
  unfoldable pub store_bucket :
      Str → List PendingObject → LoadResult → MemoryStore → MemoryStore × LoadResult
  unfolding store_objects
  store_bucket bucket objects result s =
      let (s', result') = store_objects bucket objects result (create_bucket bucket s) in
      (
        s',
        record result' {
          buckets = result'.buckets ++ bucket ∷ [];
          buckets_loaded = add64 result'.buckets_loaded (pos 1);
        },
      )

  module _ (walk : Str → List Visit) where
    -- The loop over the entries of the root.
    unfoldable pub load_entries :
        List DirEntry → LoadResult → MemoryStore → MemoryStore × LoadResult × Option LoadError
    load_entries [] result s = (s, result, none)
    load_entries (entry ∷ rest) result s =
        let bucket = trim_space entry.name in
        let next = load_entries rest result s in
        let loaded : MemoryStore × LoadResult × Option LoadError =
          elim (load_bucket_objects (walk entry.name)) [
            | none ↦ (s, result, some (bucket_failed bucket))
            | some objects ↦
                load_entries rest (store_bucket bucket objects result s).1
                  (store_bucket bucket objects result s).0
          ] in
        if entry.is_dir then if is_empty bucket then next else loaded else next

  -- LoadRoot once the root is a directory.
  unfoldable pub load_directory :
      FileSystem → Str → MemoryStore → MemoryStore × LoadResult × Option LoadError
  unfolding load_entries
  load_directory fs root s = elim (fs.read_dir root) [
    | none ↦ (s, nothing_loaded, some read_dir_failed)
    | some entries ↦
        load_entries (fs.walk root) (sort_by (λ x y. str_lt x.name y.name) entries) nothing_loaded s
  ]

  unfoldable pub load_root :
      FileSystem → Str → MemoryStore → MemoryStore × LoadResult × Option LoadError
  unfolding load_directory
  load_root fs path s =
      let root = trim_space path in
      if is_empty root then (s, nothing_loaded, some empty_root) else elim (fs.stat root) [
        | none ↦ (s, nothing_loaded, some stat_failed)
        | some false ↦ (s, nothing_loaded, some not_directory)
        | some true ↦ load_directory fs root s
      ]
