-- ===== src/Payloads/Clear.antt =====
-- internal/inmems3/payload/loader.go over internal/inmems3/store/store.go: the in-memory store behind
-- the interface of the loader, and what ClearAll leaves. `text` stands for the text of an error.
use rdma_demo.Base.{
  ℕ, ◌+◌, ◌<◌, ◌≡◌, refl, sym, ap, ◌∙◌, true, false, Option, none, some, List, [], ◌∷◌, length,
  arith, if◌then◌else◌,
}
use rdma_demo.Base.Int.{ℤ, pos, add64, add64-pos, half_range}
use rdma_demo.Base.Text.{Str, Str-discrete}
use rdma_demo.Base.Map.{lookup, Distinct, empty_of_lookup}
use rdma_demo.InmemStore.State.{
  Object, MemoryStore, Result, StoreError, create_bucket, bucket_exists,
}
use rdma_demo.InmemStore.Methods.{put_object, delete_bucket, list_buckets}
use rdma_demo.InmemStore.Deletion.{delete_bucket_lem}
use rdma_demo.InmemStore.Buckets.{
  bucket_exists-delete_bucket, has_name, NamesDiffer, list_buckets_lem,
}
use rdma_demo.Payloads.Files.{GoError}
use rdma_demo.Payloads.Loader.{Store, delete_each, clear_all}

abbrev error_of : (StoreError → Str) → Result Object → Option GoError
error_of text (Result.ok o) = none
error_of text (Result.err e) = some (record { not_exist = false; text = text e })

abbrev pub memory_store : (Str → Str) → ℕ → (StoreError → Str) → Store MemoryStore
memory_store md5 now text = record {
  create_bucket = create_bucket;
  delete_bucket = delete_bucket;
  put_object = λ bucket key body s.
      let (s', r) = put_object md5 now bucket key body s in (s', error_of text r);
  list_buckets = list_buckets;
}

no_bucket_at :
    (name : Str) (s : MemoryStore)
    → bucket_exists name s ≡ false
    → lookup Str-discrete name s.buckets ≡ none
unfolding bucket_exists
no_bucket_at name s h = ground arith

no_bucket : (s : MemoryStore) → ((name : Str) → bucket_exists name s ≡ false) → s.buckets ≡ []
no_bucket s h = empty_of_lookup Str-discrete s.buckets (λ name. no_bucket_at name s (h name))

module _ (md5 : Str → Str) (now : ℕ) (text : StoreError → Str) where
  abbrev api : Store MemoryStore
  api = memory_store md5 now text

  delete_each-bucket_exists :
      (names : List Str) (n : ℤ) (s : MemoryStore) (name : Str)
      → bucket_exists name (delete_each api names n s).0
        ≡ (if has_name name names then false else bucket_exists name s)
  unfolding delete_each
  delete_each-bucket_exists [] n s name = refl
  delete_each-bucket_exists (b ∷ names) n s name =
      delete_each-bucket_exists names (if (delete_bucket b s).1 then add64 n (pos 1) else n)
        (delete_bucket b s).0 name
      ∙ ground (arith, bucket_exists-delete_bucket b name s)

  -- Every name of the list is a bucket of the store.
  abbrev AllThere : List Str → MemoryStore → Type 0
  AllThere names s = (name : Str) → has_name name names ≡ true → bucket_exists name s ≡ true

  delete_bucket-AllThere :
      (b : Str) (names : List Str) (s : MemoryStore)
      → NamesDiffer (b ∷ names)
      → AllThere (b ∷ names) s
      → AllThere names (delete_bucket b s).0
  delete_bucket-AllThere b names s d all name h =
      ground (arith, bucket_exists-delete_bucket b name s, all name)

  delete_each-count :
      (names : List Str) (n : ℕ) (s : MemoryStore)
      → NamesDiffer names
      → AllThere names s
      → n + length names < half_range
      → (delete_each api names (pos n) s).1 ≡ pos (n + length names)
  unfolding delete_each
  delete_each-count [] n s d all small = ground arith
  delete_each-count (b ∷ names) n s d all small =
      let there : (delete_bucket b s).1 ≡ true =
        (delete_bucket_lem b s b b).0 ∙ all b (ground arith) in
      rw (there, delete_each, add64-pos n 1 (omega arith))
        (delete_each-count names (n + 1) (delete_bucket b s).0 d.1
            (delete_bucket-AllThere b names s d all) (omega arith)
          ∙ ap pos (omega arith))

  -- ClearAll of a store whose bucket names differ, and are fewer than 2⁶³, leaves no bucket and returns
  -- how many there were.
  pub clear_all_lem :
      (s : MemoryStore)
      → Distinct Str-discrete s.buckets
      → length s.buckets < half_range
      → ((clear_all (memory_store md5 now text) s).0.buckets ≡ [])
        × ((clear_all (memory_store md5 now text) s).1 ≡ pos (length s.buckets))
  unfolding clear_all
  clear_all_lem s d small =
      let names = list_buckets s in
      let (_, differ, count) = list_buckets_lem s [] d in
      (
        no_bucket (delete_each api names (pos 0) s).0 (λ name.
            delete_each-bucket_exists names (pos 0) s name
            ∙ ground (arith, (list_buckets_lem s name d).0)),
        delete_each-count names 0 s differ (λ name h. sym (list_buckets_lem s name d).0 ∙ h)
              (omega (arith, count))
            ∙ ap pos (omega (arith, count)),
      )
