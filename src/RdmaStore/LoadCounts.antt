-- ===== src/RdmaStore/LoadCounts.antt =====
-- internal/s3rdmaserver/store/loader.go: what LoadResult counts, and an import that fails midway
use mathlib.Core.List.{append-nil, append_assoc}
use rdma_demo.Base.{
  ℕ, ◌+◌, ◌<◌, ◌≡◌, ap, Bool, true, false, none, some, List, [], ◌∷◌, ◌++◌, ◌∙◌, length, arith,
  if◌then◌else◌, Option-cases, inl, inr,
}
use rdma_demo.Base.Int.{ℤ, pos, add64, add64-pos, half_range}
use rdma_demo.Base.Text.{Str, is_empty, trim_space}
use rdma_demo.RdmaStore.{MemoryStore, create_bucket, put_loaded_object}
use rdma_demo.RdmaStore.Loader.{
  LoadResult, PendingObject, Visit, DirEntry, bucket_failed, load_bucket_objects, store_objects,
  store_bucket, load_entries,
}
use rdma_demo.RdmaStore.FileCounts.{
  total, one, bytes, file_count, byte_count, load_bucket_objects_counts,
}

-- The entries that LoadRoot loads: directories whose name is not blank.
abbrev pub loads : DirEntry → Bool
loads entry =
    if entry.is_dir then if is_empty (trim_space entry.name) then false else true else false

abbrev pub loaded_entries : List DirEntry → List DirEntry
loaded_entries [] = []
loaded_entries (entry ∷ rest) =
    if loads entry then entry ∷ loaded_entries rest else loaded_entries rest

abbrev pub bucket_names : List DirEntry → List Str
bucket_names [] = []
bucket_names (entry ∷ rest) = trim_space entry.name ∷ bucket_names rest

-- The sum of a measure of walks over some entries.
abbrev pub over_walks : (Str → List Visit) → (List Visit → ℕ) → List DirEntry → ℕ
over_walks walk f [] = 0
over_walks walk f (entry ∷ rest) = f (walk entry.name) + over_walks walk f rest

-- What a result counts.
pub record Counts (r : LoadResult) (names : List Str) (b n k : ℕ) : Type 0 where
  pub names_are : r.buckets ≡ names
  pub buckets_are : r.buckets_loaded ≡ pos b
  pub objects_are : r.objects_loaded ≡ pos n
  pub bytes_are : r.bytes_loaded ≡ pos k

module _ (md5 : Str → Str) (clock : ℤ → ℕ) where
  store_objects-Counts :
      (bucket : Str) (objects : List PendingObject) (r : LoadResult) (s : MemoryStore)
      (names : List Str) (b n k : ℕ)
      → Counts r names b n k
      → n + total one objects < half_range
      → k + total bytes objects < half_range
      → Counts
          (store_objects md5 clock bucket objects r s).1
          names
          b
          (n + total one objects)
          (k + total bytes objects)
  unfolding store_objects
  store_objects-Counts bucket [] r s names b n k c hn hk = ground arith
  store_objects-Counts bucket (x ∷ l) r s names b n k c hn hk =
      let rec =
        store_objects-Counts bucket l
          (record r {
            objects_loaded = add64 r.objects_loaded (pos 1);
            bytes_loaded = add64 r.bytes_loaded (pos (length x.body));
          })
          (put_loaded_object md5 (clock r.objects_loaded) bucket x.key x.body x.last_modified s).0
          names b (n + 1) (k + length x.body)
          (record {
            names_are = c.names_are;
            buckets_are = c.buckets_are;
            objects_are = rw c.objects_are (add64-pos n 1 (omega arith));
            bytes_are = rw c.bytes_are (add64-pos k (length x.body) (omega arith));
          })
          (omega arith) (omega arith) in
      record {
        names_are = rec.names_are;
        buckets_are = rec.buckets_are;
        objects_are = rec.objects_are ∙ ap pos (omega arith);
        bytes_are = rec.bytes_are ∙ ap pos (omega arith);
      }

  store_bucket-Counts :
      (bucket : Str) (visits : List Visit) (objects : List PendingObject) (r : LoadResult)
      (s : MemoryStore) (names : List Str) (b n k : ℕ)
      → load_bucket_objects visits ≡ some objects
      → Counts r names b n k
      → b + 1 < half_range
      → n + file_count visits < half_range
      → k + byte_count visits < half_range
      → Counts
          (store_bucket md5 clock bucket objects r s).1
          (names ++ bucket ∷ [])
          (b + 1)
          (n + file_count visits)
          (k + byte_count visits)
  unfolding store_bucket
  store_bucket-Counts bucket visits objects r s names b n k e c hb hn hk =
      let (files, size) = load_bucket_objects_counts visits objects e in
      let stored =
        store_objects-Counts bucket objects r (create_bucket bucket s) names b n k c (omega arith)
          (omega arith) in
      record {
        names_are = ap (λ l. l ++ bucket ∷ []) stored.names_are;
        buckets_are = rw stored.buckets_are (add64-pos b 1 hb);
        objects_are = stored.objects_are ∙ ap (λ m. pos (n + m)) files;
        bytes_are = stored.bytes_are ∙ ap (λ m. pos (k + m)) size;
      }

  module _ (walk : Str → List Visit) where
    -- If no bucket fails and the counters stay below 2⁶³, the loop over the entries counts the buckets
    -- that it loads, in order and with their names, their files and the bytes of these.
    pub load_entries-Counts :
        (entries : List DirEntry) (r : LoadResult) (s : MemoryStore) (names : List Str) (b n k : ℕ)
        → Counts r names b n k
        → (load_entries md5 clock walk entries r s).2 ≡ none
        → b + length (loaded_entries entries) < half_range
        → n + over_walks walk file_count (loaded_entries entries) < half_range
        → k + over_walks walk byte_count (loaded_entries entries) < half_range
        → Counts
            (load_entries md5 clock walk entries r s).1
            (names ++ bucket_names (loaded_entries entries))
            (b + length (loaded_entries entries))
            (n + over_walks walk file_count (loaded_entries entries))
            (k + over_walks walk byte_count (loaded_entries entries))
    unfolding load_entries
    load_entries-Counts [] r s names b n k c ok hb hn hk = ground (arith, append-nil names)
    load_entries-Counts (entry ∷ rest) r s names b n k c ok hb hn hk =
        let bucket = trim_space entry.name in
        let next = load_entries-Counts rest r s names b n k c in
        elim (Option-cases (load_bucket_objects (walk entry.name))) [
          | inl e ↦ ground (arith, next)
          | inr (objects, e) ↦
              let stored = store_bucket md5 clock bucket objects r s in
              let files = n + file_count (walk entry.name) in
              let size = k + byte_count (walk entry.name) in
              ground (
                arith,
                next,
                store_bucket-Counts bucket (walk entry.name) objects r s names b n k e c,
                load_entries-Counts rest stored.1 stored.0 (names ++ bucket ∷ []) (b + 1) files
                    size,
                append_assoc names (bucket ∷ []) (bucket_names (loaded_entries rest)),
              )
        ]

    -- A directory that cannot be read whole ends the import with its bucket's name: the store and the
    -- result stay as the entries before it left them, and the entries after it are not loaded.
    pub load_entries_failed :
        (before after : List DirEntry) (bad : DirEntry) (r : LoadResult) (s : MemoryStore)
        → (load_entries md5 clock walk before r s).2 ≡ none
        → loads bad ≡ true
        → load_bucket_objects (walk bad.name) ≡ none
        → load_entries md5 clock walk (before ++ bad ∷ after) r s ≡ (
          (load_entries md5 clock walk before r s).0,
          (load_entries md5 clock walk before r s).1,
          some (bucket_failed (trim_space bad.name)),
        )
    unfolding load_entries
    load_entries_failed [] after bad r s ok l n = ground arith
    load_entries_failed (entry ∷ before) after bad r s ok l n =
        let next = load_entries_failed before after bad r s in
        elim (Option-cases (load_bucket_objects (walk entry.name))) [
          | inl e ↦ ground (arith, next)
          | inr (objects, e) ↦
              let stored = store_bucket md5 clock (trim_space entry.name) objects r s in
              ground (arith, next, load_entries_failed before after bad stored.1 stored.0)
        ]
