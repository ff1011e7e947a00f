-- ===== src/Control/Codes.antt =====
-- internal/inmems3/control/server.go over internal/inmems3/payload/loader.go: which status an import
-- that cannot start is answered with, and what ClearAll leaves
use rdma_demo.Base.{
  ◌≡◌, refl, Bool, true, false, Option, [], ◌∷◌, ◌++◌, ℕ, map, ◌<◌, ◌%◌, ◌^◌, length, ◌⊎◌, inl, inr,
  arith, if◌then◌else◌, ap,
}
use rdma_demo.Base.Text.{Str, Str-discrete, str_lt, codes, is_empty, trim_space, has_prefix}
use rdma_demo.Base.Int.{half_range}
use rdma_demo.Base.Map.{Distinct}
use rdma_demo.Base.Sort.{sort_by}
use rdma_demo.InmemStore.State.{MemoryStore, StoreError}
use rdma_demo.InmemStore.Methods.{list_buckets as list_names}
use rdma_demo.Payloads.Clear.{memory_store, clear_all_lem}
use rdma_demo.Payloads.Files.{GoError, GoResult, ok, err, FileSystem}
use rdma_demo.Payloads.Loader.{
  Store, add_folder as load_folder, delete_bucket as drop_bucket, clear_all as drop_all,
  list_buckets as bucket_names,
}
use rdma_demo.Control.{
  Loader, invalid_argument, not_found, response, status, contains, to_status_error, add_folder,
  clear_all, list_buckets, to_uint,
}

-- internal/inmems3/payload/loader.go's Loader as the Loader of the control service; the file system and
-- the context are those of the call.
module _ {S : Type 0} (store : Store S) (quote : Str → Str) (context_error : Str → Option GoError)
    (fs : FileSystem) where
  abbrev pub payload_loader : Loader S
  payload_loader = record {
    add_folder = load_folder store quote context_error fs;
    delete_bucket = drop_bucket store;
    clear_all = drop_all store;
    list_buckets = bucket_names store;
  }

-- os.Stat finds the path, and it is no directory.
abbrev pub is_directory_error : GoResult Bool → Bool
is_directory_error (ok b) = true
is_directory_error (err e) = false

has_prefix_self : (p : Str) → has_prefix p p ≡ true
unfolding has_prefix
has_prefix_self [] = refl
has_prefix_self (c ∷ p) = ground (arith, has_prefix_self p)

contains_self : (p : Str) → contains p p ≡ true
unfolding contains
contains_self [] = has_prefix_self []
contains_self (c ∷ p) = ground (arith, has_prefix_self (c ∷ p))

contains_end : (front s p : Str) → contains s p ≡ true → contains (front ++ s) p ≡ true
unfolding contains
contains_end [] s p h = h
contains_end (c ∷ front) s p h = ground (arith, contains_end front s p h)

-- The message of AddFolder for a root that is a file.
abbrev pub not_directory : (Str → Str) → Str → Str
not_directory quote root = codes "payload root " ++ quote root ++ codes " is not a directory"

not_directory-contains :
    (quote : Str → Str) (root : Str)
    → contains (not_directory quote root) (codes "is not a directory") ≡ true
not_directory-contains quote root =
    let p = codes "is not a directory" in
    contains_end (codes "payload root ") (quote root ++ codes " is not a directory") p (
      contains_end (quote root) (codes " is not a directory") p
        (contains_end (codes " ") p p (contains_self p)))

module _ {S : Type 0} (store : Store S) (quote : Str → Str) (context_error : Str → Option GoError)
    (fs : FileSystem) where
  -- AddFolder of a path that is not blank and that os.Stat does not find is answered NotFound with the
  -- text of that error, and AddFolder of a file is answered InvalidArgument with a message that quotes
  -- the path: the store does not change.
  pub add_folder_not_started :
      (path : Str) (missing : GoError) (s : S)
      → is_empty (trim_space path) ≡ false
      → missing.not_exist ≡ true
      → (fs.stat (trim_space path) ≡ err missing) ⊎ (fs.stat (trim_space path) ≡ ok false)
      → add_folder (payload_loader store quote context_error fs) path s ≡ (
        s,
        (if is_directory_error (fs.stat (trim_space path))
            then status invalid_argument (not_directory quote (trim_space path))
            else status not_found missing.text),
      )
  unfolding add_folder load_folder to_status_error
  add_folder_not_started path missing s named gone (inl h) = ground arith
  add_folder_not_started path missing s named gone (inr h) =
      ground (arith, not_directory-contains quote (trim_space path))

-- Over a store whose bucket names differ and are fewer than 2⁶³: ClearAll reports how many there were,
-- modulo 2³², and ListBuckets after it is empty.
pub clear_then_list :
    (md5 : Str → Str) (now : ℕ) (text : StoreError → Str) (quote : Str → Str)
    (context_error : Str → Option GoError) (fs : FileSystem) (s : MemoryStore)
    → Distinct Str-discrete s.buckets
    → length s.buckets < half_range
    → let loader = payload_loader (memory_store md5 now text) quote context_error fs in
      ((clear_all loader s).1 ≡ response (length s.buckets % 2 ^ 32))
      × (list_buckets loader (clear_all loader s).0 ≡ response [])
unfolding clear_all list_buckets bucket_names list_names sort_by
clear_then_list md5 now text quote context_error fs s d small =
    let (empty, count) = clear_all_lem md5 now text s d small in
    (
      ap (λ n. response (to_uint (2 ^ 32) n)) count,
      ap (λ b. response (sort_by str_lt (map (λ e. e.0) b))) empty,
    )
