-- ===== src/InmemStore/Buckets.antt =====
-- internal/inmems3/store/store.go: which buckets there are, and their names
use rdma_demo.Base.{
  suc, ◌≡◌, refl, ap, ◌∙◌, Bool, true, false, none, some, List, [], ◌∷◌, map, length, arith, ite,
  Option-cases, inl, inr,
}
use rdma_demo.Base.Text.{Str, Str-discrete, str_lt}
use rdma_demo.Base.Map.{Map, lookup, erase, Distinct, lookup-insert, lookup-erase}
use rdma_demo.Base.Sort.{sort_by, insert_sorted}
use rdma_demo.InmemStore.State.{
  Object, MemoryStore, get_bucket, bucket_exists, make_object_id, remove_object,
}
use rdma_demo.InmemStore.Methods.{remove_all, delete_bucket, list_buckets}
use rdma_demo.InmemStore.Removal.{buckets-unlink, dropped, remove_object-cases}

bucket_exists-remove_object :
    (bucket key name : Str) (s : MemoryStore)
    → bucket_exists name (remove_object bucket key s).0 ≡ bucket_exists name s
unfolding bucket_exists
bucket_exists-remove_object bucket key name s =
    remove_object-cases (λ r. bucket_exists name r.0 ≡ bucket_exists name s) bucket key s
      (λ h. refl)
      λ b obj e k. ground (
        arith,
        lookup-insert Str-discrete bucket name (erase Str-discrete key b) s.buckets,
        buckets-unlink (make_object_id bucket key) (dropped bucket key b obj s),
      )

bucket_exists-remove_all :
    (bucket : Str) (l : Map Str Object) (name : Str) (s : MemoryStore)
    → bucket_exists name (remove_all bucket l s) ≡ bucket_exists name s
unfolding remove_all
bucket_exists-remove_all bucket [] name s = refl
bucket_exists-remove_all bucket ((k, o) ∷ l) name s =
    bucket_exists-remove_all bucket l name (remove_object bucket k s).0
    ∙ bucket_exists-remove_object bucket k name s

bucket_exists-erased :
    (bucket name : Str) (s : MemoryStore)
    → bucket_exists name (record s { buckets = erase Str-discrete bucket s.buckets })
      ≡ ite (Str-discrete bucket name) false (bucket_exists name s)
unfolding bucket_exists
bucket_exists-erased bucket name s = ground (arith, lookup-erase Str-discrete bucket name s.buckets)

bucket_exists-missing :
    (bucket name : Str) (s : MemoryStore)
    → get_bucket s bucket ≡ none
    → bucket_exists name s ≡ ite (Str-discrete bucket name) false (bucket_exists name s)
unfolding bucket_exists
bucket_exists-missing bucket name s e = ground arith

-- DeleteBucket removes the bucket that it names and no other.
pub bucket_exists-delete_bucket :
    (bucket name : Str) (s : MemoryStore)
    → bucket_exists name (delete_bucket bucket s).0
      ≡ ite (Str-discrete bucket name) false (bucket_exists name s)
unfolding delete_bucket
bucket_exists-delete_bucket bucket name s = elim (Option-cases (get_bucket s bucket)) [
  | inl e ↦ rw (e, delete_bucket) (bucket_exists-missing bucket name s e)
  | inr (b, e) ↦
      rw (e, delete_bucket)
        (bucket_exists-erased bucket name (remove_all bucket b s)
          ∙ ap (λ t. ite (Str-discrete bucket name) false t)
              (bucket_exists-remove_all bucket b name s))
]

-- Whether a name stands in a list, and whether none stands twice.
abbrev pub has_name : Str → List Str → Bool
has_name name [] = false
has_name name (n ∷ l) = ite (Str-discrete n name) true (has_name name l)

abbrev pub NamesDiffer : List Str → Type 0
NamesDiffer [] = Unit
NamesDiffer (n ∷ l) = (has_name n l ≡ false) × NamesDiffer l

has_name-insert_sorted :
    (name n : Str) (l : List Str) → has_name name (insert_sorted str_lt n l) ≡ has_name name (n ∷ l)
unfolding insert_sorted
has_name-insert_sorted name n [] = refl
has_name-insert_sorted name n (x ∷ l) = ground (arith, has_name-insert_sorted name n l)

has_name-sort_by : (name : Str) (l : List Str) → has_name name (sort_by str_lt l) ≡ has_name name l
unfolding sort_by
has_name-sort_by name [] = refl
has_name-sort_by name (x ∷ l) =
    ground (arith, has_name-insert_sorted name x (sort_by str_lt l), has_name-sort_by name l)

insert_sorted-NamesDiffer :
    (n : Str) (l : List Str)
    → has_name n l ≡ false
    → NamesDiffer l
    → NamesDiffer (insert_sorted str_lt n l)
unfolding insert_sorted
insert_sorted-NamesDiffer n [] h d = (refl, tt)
insert_sorted-NamesDiffer n (x ∷ l) h d =
    ground (arith, insert_sorted-NamesDiffer n l, has_name-insert_sorted x n l)

sort_by-NamesDiffer : (l : List Str) → NamesDiffer l → NamesDiffer (sort_by str_lt l)
unfolding sort_by
sort_by-NamesDiffer [] d = tt
sort_by-NamesDiffer (x ∷ l) d = ground (
  arith,
  insert_sorted-NamesDiffer x (sort_by str_lt l),
  has_name-sort_by x l,
  sort_by-NamesDiffer l,
)

length-insert_sorted : (n : Str) (l : List Str) → length (insert_sorted str_lt n l) ≡ suc (length l)
unfolding insert_sorted
length-insert_sorted n [] = refl
length-insert_sorted n (x ∷ l) = ground (arith, length-insert_sorted n l)

length-sort_by : (l : List Str) → length (sort_by str_lt l) ≡ length l
unfolding sort_by
length-sort_by [] = refl
length-sort_by (x ∷ l) = length-insert_sorted x (sort_by str_lt l) ∙ ap suc (length-sort_by l)

abbrev keys : Map Str (Map Str Object) → List Str
keys m = map (λ e. e.0) m

has_name-keys :
    (name : Str) (m : Map Str (Map Str Object))
    → has_name name (keys m) ≡ elim (lookup Str-discrete name m) [ none ↦ false | some b ↦ true ]
unfolding lookup
has_name-keys name [] = refl
has_name-keys name ((k, b) ∷ m) = ground (arith, has_name-keys name m)

keys-NamesDiffer : (m : Map Str (Map Str Object)) → Distinct Str-discrete m → NamesDiffer (keys m)
keys-NamesDiffer [] d = tt
keys-NamesDiffer ((k, b) ∷ m) d = ground (arith, keys-NamesDiffer m d.1, has_name-keys k m)

length-keys : (m : Map Str (Map Str Object)) → length (keys m) ≡ length m
length-keys [] = refl
length-keys ((k, b) ∷ m) = ap suc (length-keys m)

-- ListBuckets names each bucket that is there, and each once.
pub list_buckets_lem :
    (s : MemoryStore) (name : Str)
    → Distinct Str-discrete s.buckets
    → (has_name name (list_buckets s) ≡ bucket_exists name s)
      × NamesDiffer (list_buckets s)
      × (length (list_buckets s) ≡ length s.buckets)
unfolding list_buckets bucket_exists
list_buckets_lem s name d = (
  has_name-sort_by name (keys s.buckets) ∙ has_name-keys name s.buckets,
  sort_by-NamesDiffer (keys s.buckets) (keys-NamesDiffer s.buckets d),
  length-sort_by (keys s.buckets) ∙ length-keys s.buckets,
)
