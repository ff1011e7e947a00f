-- ===== src/RdmaStore/Imported.antt =====
-- internal/s3rdmaserver/store/loader.go: what the store holds after an import
use rdma_demo.Base.{
  ℕ, ◌≡◌, refl, ap, Bool, true, false, Option, none, some, List, [], ◌∷◌, ◌++◌, ◌∙◌, arith, ite,
  if◌then◌else◌, Option-cases, Bool-cases, inl, inr,
}
use rdma_demo.Base.Int.{ℤ}
use rdma_demo.Base.Text.{Str, Str-discrete, is_empty, trim_space, str_lt}
use rdma_demo.Base.StrOrder.{str_lt_irrefl}
use rdma_demo.Base.Sort.{sort_by, insert_sorted}
use rdma_demo.RdmaStore.{
  Object, MemoryStore, create_bucket, quoted_md5, loaded_object, put_loaded_object, get_object,
}
use rdma_demo.RdmaStore.Reads.{get_object-create_bucket, get_object-put_loaded_object}
use rdma_demo.RdmaStore.Loader.{
  LoadResult, PendingObject, Visit, walk_error, skipped, regular, DirEntry, FileSystem,
  pending_object, walk_objects, load_bucket_objects, store_objects, store_bucket, load_entries,
  load_directory, load_root, nothing_loaded,
}

-- The body and the ETag of an object.
abbrev pub body_etag : Option Object → Option (Str × Str)
body_etag none = none
body_etag (some o) = some (o.body, o.etag)

abbrev by_key : PendingObject → PendingObject → Bool
by_key x y = str_lt x.key y.key

pub load_bucket_objects-some :
    (visits : List Visit) (objects : List PendingObject)
    → load_bucket_objects visits ≡ some objects
    → (l : List PendingObject) × (walk_objects visits [] ≡ some l) × (objects ≡ sort_by by_key l)
unfolding load_bucket_objects
load_bucket_objects-some visits objects h = elim (Option-cases (walk_objects visits [])) [
  | inl n ↦ absurd (ground arith)
  | inr (l, e) ↦ (l, e, ground arith)
]

module _ (md5 : Str → Str) where
  -- What a key reads after a file with this path and this content.
  abbrev overwritten : Str → Str → Str → Option (Str × Str) → Option (Str × Str)
  overwritten key rel body old = ite (Str-discrete rel key) (some (body, quoted_md5 md5 body)) old

  -- What a key reads after some objects: the last one with that key counts.
  abbrev last_object : Str → List PendingObject → Option (Str × Str) → Option (Str × Str)
  last_object key [] old = old
  last_object key (x ∷ l) old = last_object key l (overwritten key x.key x.body old)

  -- The same, from the files of a walk.
  abbrev pub last_file : Str → List Visit → Option (Str × Str) → Option (Str × Str)
  last_file key [] old = old
  last_file key (regular (some body) modified (some rel) ∷ rest) old =
      last_file key rest (overwritten key rel body old)
  last_file key (visit ∷ rest) old = last_file key rest old

  -- The same for a bucket, from the directories of the root.
  abbrev pub last_entry :
      (Str → List Visit) → Str → Str → List DirEntry → Option (Str × Str) → Option (Str × Str)
  last_entry walk bucket key [] old = old
  last_entry walk bucket key (entry ∷ rest) old = last_entry walk bucket key rest (
      if entry.is_dir
      then if is_empty (trim_space entry.name)
        then old
        else ite (Str-discrete (trim_space entry.name) bucket) (last_file key (walk entry.name) old)
            old
      else old)

  last_object-append :
      (key : Str) (l r : List PendingObject) (old : Option (Str × Str))
      → last_object key (l ++ r) old ≡ last_object key r (last_object key l old)
  last_object-append key [] r old = refl
  last_object-append key (x ∷ l) r old =
      last_object-append key l r (overwritten key x.key x.body old)

  overwritten_comm :
      (key : Str) (a x : PendingObject) (old : Option (Str × Str))
      → by_key x a ≡ true
      → overwritten key a.key a.body (overwritten key x.key x.body old)
        ≡ overwritten key x.key x.body (overwritten key a.key a.body old)
  overwritten_comm key a x old h = ground (arith, str_lt_irrefl key)

  last_object-insert_sorted :
      (key : Str) (a : PendingObject) (l : List PendingObject) (old : Option (Str × Str))
      → last_object key (insert_sorted by_key a l) old ≡ last_object key (a ∷ l) old
  unfolding insert_sorted
  last_object-insert_sorted key a [] old = refl
  last_object-insert_sorted key a (x ∷ l) old = elim (Bool-cases (by_key x a)) [
    | inl h ↦ rw h (
        last_object-insert_sorted key a l (overwritten key x.key x.body old)
        ∙ ap (last_object key l) (overwritten_comm key a x old h))
    | inr h ↦ rw h refl
  ]

  last_object-sort_by :
      (key : Str) (l : List PendingObject) (old : Option (Str × Str))
      → last_object key (sort_by by_key l) old ≡ last_object key l old
  unfolding sort_by
  last_object-sort_by key [] old = refl
  last_object-sort_by key (a ∷ l) old =
      last_object-insert_sorted key a (sort_by by_key l) old
      ∙ last_object-sort_by key l (overwritten key a.key a.body old)

  last_object-walk_objects :
      (key : Str) (visits : List Visit) (objects done : List PendingObject)
      (old : Option (Str × Str))
      → walk_objects visits objects ≡ some done
      → last_object key done old ≡ last_file key visits (last_object key objects old)
  unfolding walk_objects pending_object
  last_object-walk_objects key [] objects done old h = ground arith
  last_object-walk_objects key (walk_error ∷ rest) objects done old h = absurd (ground arith)
  last_object-walk_objects key (skipped ∷ rest) objects done old h =
      last_object-walk_objects key rest objects done old h
  last_object-walk_objects key (regular none m rel ∷ rest) objects done old h =
      absurd (ground arith)
  last_object-walk_objects key (regular (some b) none rel ∷ rest) objects done old h =
      absurd (ground arith)
  last_object-walk_objects key (regular (some b) (some m) none ∷ rest) objects done old h =
      absurd (ground arith)
  last_object-walk_objects key (regular (some b) (some m) (some rel) ∷ rest) objects done old h =
      let x : PendingObject = record { key = rel; body = b; last_modified = m } in
      last_object-walk_objects key rest (objects ++ x ∷ []) done old h
      ∙ ap (last_file key rest) (last_object-append key objects (x ∷ []) old)

  last_object-load_bucket_objects :
      (key : Str) (visits : List Visit) (objects : List PendingObject) (old : Option (Str × Str))
      → load_bucket_objects visits ≡ some objects
      → last_object key objects old ≡ last_file key visits old
  last_object-load_bucket_objects key visits objects old h =
      let (l, e, sorted) = load_bucket_objects-some visits objects h in
      ap (λ o. last_object key o old) sorted
      ∙ last_object-sort_by key l old
      ∙ last_object-walk_objects key visits [] l old e

  -- The reading of a key, through one object that is stored.
  body_etag-put :
      (now : ℕ) (name : Str) (x : PendingObject) (bucket key : Str) (s : MemoryStore)
      → body_etag
          (get_object bucket key (put_loaded_object md5 now name x.key x.body x.last_modified s).0)
        ≡ ite
            (Str-discrete name bucket)
            (overwritten key x.key x.body (body_etag (get_object bucket key s)))
            (body_etag (get_object bucket key s))
  unfolding loaded_object
  body_etag-put now name x bucket key s =
      ground
        (arith, get_object-put_loaded_object md5 now name x.key x.body x.last_modified s bucket key)

  module _ (clock : ℤ → ℕ) where
    body_etag-store_objects :
        (bucket key name : Str) (objects : List PendingObject) (result : LoadResult)
        (s : MemoryStore)
        → body_etag (get_object bucket key (store_objects md5 clock name objects result s).0)
          ≡ ite
              (Str-discrete name bucket)
              (last_object key objects (body_etag (get_object bucket key s)))
              (body_etag (get_object bucket key s))
    unfolding store_objects
    body_etag-store_objects bucket key name [] result s = ground arith
    body_etag-store_objects bucket key name (x ∷ objects) result s =
        body_etag-store_objects bucket key name objects _
          (put_loaded_object md5 (clock result.objects_loaded) name x.key x.body x.last_modified
            s).0
        ∙ ground (arith, body_etag-put (clock result.objects_loaded) name x bucket key s)

    body_etag-store_bucket :
        (bucket key name : Str) (visits : List Visit) (objects : List PendingObject)
        (result : LoadResult) (s : MemoryStore)
        → load_bucket_objects visits ≡ some objects
        → body_etag (get_object bucket key (store_bucket md5 clock name objects result s).0)
          ≡ ite
              (Str-discrete name bucket)
              (last_file key visits (body_etag (get_object bucket key s)))
              (body_etag (get_object bucket key s))
    unfolding store_bucket
    body_etag-store_bucket bucket key name visits objects result s h = ground (
      arith,
      body_etag-store_objects bucket key name objects result (create_bucket name s),
      get_object-create_bucket name s bucket key,
      last_object-load_bucket_objects key visits objects (body_etag (get_object bucket key s)),
    )

    module _ (walk : Str → List Visit) where
      body_etag-load_entries :
          (bucket key : Str) (entries : List DirEntry) (result : LoadResult) (s : MemoryStore)
          → (load_entries md5 clock walk entries result s).2 ≡ none
          → body_etag (get_object bucket key (load_entries md5 clock walk entries result s).0)
            ≡ last_entry walk bucket key entries (body_etag (get_object bucket key s))
      unfolding load_entries
      body_etag-load_entries bucket key [] result s h = refl
      body_etag-load_entries bucket key (entry ∷ rest) result s h =
          let bucket' = trim_space entry.name in
          let next = body_etag-load_entries bucket key rest result s in
          elim (Option-cases (load_bucket_objects (walk entry.name))) [
            | inl n ↦ ground (arith, next)
            | inr (objects, e) ↦
                let stored = store_bucket md5 clock bucket' objects result s in
                ground (
                  arith,
                  next,
                  body_etag-load_entries bucket key rest stored.1 stored.0,
                  body_etag-store_bucket bucket key bucket' (walk entry.name) objects result s e,
                )
          ]

    -- After LoadRoot returned without an error from a root that is not blank, that os.Stat reports as a
    -- directory and that os.ReadDir lists, every key of every bucket reads as the last file with that path in the
    -- directories that give the bucket its name, with the file's content and its ETag, and as before
    -- if there is no such file.
    pub load_root_lem :
        (fs : FileSystem) (path : Str) (entries : List DirEntry) (s : MemoryStore)
        → is_empty (trim_space path) ≡ false
        → fs.stat (trim_space path) ≡ some true
        → fs.read_dir (trim_space path) ≡ some entries
        → (load_root md5 clock fs path s).2 ≡ none
        → (bucket key : Str)
        → body_etag (get_object bucket key (load_root md5 clock fs path s).0)
          ≡ last_entry
              (fs.walk (trim_space path))
              bucket
              key
              (sort_by (λ x y. str_lt x.name y.name) entries)
              (body_etag (get_object bucket key s))
    unfolding load_root load_directory
    load_root_lem fs path entries s named is_dir listed ok bucket key = ground (
      arith,
      body_etag-load_entries (fs.walk (trim_space path)) bucket key
          (sort_by (λ x y. str_lt x.name y.name) entries) nothing_loaded s,
    )
