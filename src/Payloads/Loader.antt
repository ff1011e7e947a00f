-- ===== src/Payloads/Loader.antt =====
-- internal/inmems3/payload/loader.go: the loader over its interface Store. `quote` stands for the verb
-- %q of fmt, and `context_error` for what ctx.Err returns when the loop comes to an entry.
use rdma_demo.Base.{
  Bool, true, false, Option, none, some, List, [], ◌∷◌, ◌++◌, length, if◌then◌else◌,
}
use rdma_demo.Base.Int.{ℤ, pos, add64}
use rdma_demo.Base.Text.{Str, codes, is_empty, trim_space, str_lt}
use rdma_demo.Base.Sort.{sort_by}
use rdma_demo.Payloads.Files.{
  GoError, GoResult, ok, err, wrap_error, Visit, walk_error, context_done, skipped, regular,
  DirEntry, FileSystem,
}

-- The interface Store, over the states of a store; what PutObject returns is its error.
pub record Store (S : Type 0) : Type 0 where
  pub create_bucket : Str → S → S
  pub delete_bucket : Str → S → S × Bool
  pub put_object : Str → Str → Str → S → S × Option GoError
  pub list_buckets : S → List Str

pub record AddFolderResult : Type 0 where
  pub buckets : List Str
  pub buckets_loaded : ℤ
  pub objects_loaded : ℤ
  pub bytes_loaded : ℤ

pub record PendingObject : Type 0 where
  pub key : Str
  pub body : Str

abbrev pub nothing_loaded : AddFolderResult
nothing_loaded = record {
  buckets = [];
  buckets_loaded = pos 0;
  objects_loaded = pos 0;
  bytes_loaded = pos 0;
}

-- The callback for a regular file.
unfoldable pub pending_object : GoResult Str → GoResult Str → GoResult PendingObject
pending_object (err e) rel = err e
pending_object (ok body) (err e) = err e
pending_object (ok body) (ok rel) = ok (record { key = rel; body = body })

-- The walk: the objects so far, or the first error.
unfoldable pub walk_objects : List Visit → List PendingObject → GoResult (List PendingObject)
unfolding pending_object
walk_objects [] objects = ok objects
walk_objects (walk_error e ∷ rest) objects = err e
walk_objects (context_done e ∷ rest) objects = err e
walk_objects (skipped ∷ rest) objects = walk_objects rest objects
walk_objects (regular body rel ∷ rest) objects = elim (pending_object body rel) [
  | err e ↦ err e
  | ok obj ↦ walk_objects rest (objects ++ obj ∷ [])
]

unfoldable pub load_bucket_objects : List Visit → GoResult (List PendingObject)
unfolding walk_objects
load_bucket_objects visits = elim (walk_objects visits []) [
  | err e ↦ err e
  | ok objects ↦ ok (sort_by (λ x y. str_lt x.key y.key) objects)
]

-- A state, what was counted, and the error if there is one.
abbrev pub Outcome : Type 0 → Type 0
Outcome S = S × AddFolderResult × Option GoError

module _ {S : Type 0} (api : Store S) (quote : Str → Str) where
  -- The loop over the objects of a bucket.
  unfoldable pub store_objects : Str → List PendingObject → AddFolderResult → S → Outcome S
  store_objects bucket [] result s = (s, result, none)
  store_objects bucket (obj ∷ objects) result s =
      elim (api.put_object bucket obj.key obj.body s).1 [
        | some e ↦ (
          (api.put_object bucket obj.key obj.body s).0,
          result,
          some (
              wrap_error
                (codes "store bucket "
                  ++ quote bucket
                  ++ codes " key "
                  ++ quote obj.key
                  ++ codes ": ")
                e),
        )
        | none ↦
            store_objects bucket objects
              (record result {
                objects_loaded = add64 result.objects_loaded (pos 1);
                bytes_loaded = add64 result.bytes_loaded (pos (length obj.body));
              })
              (api.put_object bucket obj.key obj.body s).0
      ]

  abbrev pub bucket_done : Str → AddFolderResult → AddFolderResult
  bucket_done bucket result = record result {
    buckets = result.buckets ++ bucket ∷ [];
    buckets_loaded = add64 result.buckets_loaded (pos 1);
  }

  -- One bucket that was read: it is made anew.
  unfoldable pub replace_bucket : Str → List PendingObject → AddFolderResult → S → Outcome S
  unfolding store_objects
  replace_bucket bucket objects result s =
      let (s', result', e) =
        store_objects bucket objects result
          (api.create_bucket bucket (api.delete_bucket bucket s).0) in
      (s', elim e [ none ↦ bucket_done bucket result' | some x ↦ result' ], e)

  module _ (context_error : Str → Option GoError) (walk : Str → List Visit) where
    -- One entry of the root.
    unfoldable pub add_entry : DirEntry → AddFolderResult → S → Outcome S
    add_entry entry result s =
        let bucket = trim_space entry.name in
        let loaded : Outcome S = elim (load_bucket_objects (walk entry.name)) [
          | err e ↦
              (s, result, some (wrap_error (codes "load bucket " ++ quote bucket ++ codes ": ") e))
          | ok objects ↦ replace_bucket bucket objects result s
        ] in
        elim (context_error entry.name) [
          | some e ↦ (s, result, some e)
          | none ↦
              if entry.is_dir
              then if is_empty bucket then (s, result, none) else loaded
              else (s, result, none)
        ]

    -- The loop over the entries of the root, to the first error.
    unfoldable pub add_entries : List DirEntry → AddFolderResult → S → Outcome S
    add_entries [] result s = (s, result, none)
    add_entries (entry ∷ rest) result s = elim (add_entry entry result s).2 [
      | some e ↦ add_entry entry result s
      | none ↦ add_entries rest (add_entry entry result s).1 (add_entry entry result s).0
    ]

  -- The end of AddFolder: the bucket names are sorted if all went well.
  abbrev pub sorted_buckets : Outcome S → Outcome S
  sorted_buckets (s, result, none) =
      (s, record result { buckets = sort_by str_lt result.buckets }, none)
  sorted_buckets (s, result, some e) = (s, result, some e)

  unfoldable pub add_folder : (Str → Option GoError) → FileSystem → Str → S → Outcome S
  add_folder context_error fs path s =
      let root = trim_space path in
      let failed : GoError → Outcome S = λ e. (s, nothing_loaded, some e) in
      if is_empty root
      then failed (record { not_exist = false; text = codes "payload root must not be empty" })
      else elim (fs.stat root) [
        | err e ↦ failed e
        | ok false ↦ failed (record {
          not_exist = false;
          text = codes "payload root " ++ quote root ++ codes " is not a directory";
        })
        | ok true ↦ elim (fs.read_dir root) [
          | err e ↦ failed e
          | ok entries ↦
              sorted_buckets (add_entries context_error (fs.walk root) entries nothing_loaded s)
        ]
      ]

module _ {S : Type 0} (api : Store S) where
  unfoldable pub delete_bucket : Str → S → S × Bool
  delete_bucket name s = api.delete_bucket (trim_space name) s

  -- The loop of ClearAll, with the count so far.
  unfoldable pub delete_each : List Str → ℤ → S → S × ℤ
  delete_each [] deleted s = (s, deleted)
  delete_each (bucket ∷ rest) deleted s =
      let (s', was_there) = api.delete_bucket bucket s in
      delete_each rest (if was_there then add64 deleted (pos 1) else deleted) s'

  unfoldable pub clear_all : S → S × ℤ
  unfolding delete_each
  clear_all s = delete_each (api.list_buckets s) (pos 0) s

  unfoldable pub list_buckets : S → List Str
  list_buckets s = api.list_buckets s
