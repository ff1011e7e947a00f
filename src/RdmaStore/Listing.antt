-- ===== src/RdmaStore/Listing.antt =====
-- internal/s3rdmaserver/store/store.go: what ListObjects returns
use rdma_demo.Base.{
  ◌≡◌, refl, Bool, true, false, Option, none, some, List, [], ◌∷◌, arith, ite, All, if◌then◌else◌,
  ◌||◌, ap, ◌∙◌, Option-cases, inl, inr,
}
use rdma_demo.Base.Text.{Str, Str-discrete, is_empty, has_prefix, str_lt}
use rdma_demo.Base.StrOrder.{str_lt_irrefl, str_lt_trans, str_lt_connected}
use rdma_demo.Base.Map.{Map, lookup, Distinct}
use rdma_demo.Base.Map.Values.{AllValues-lookup}
use rdma_demo.Base.Sort.{sort_by, insert_sorted}
use rdma_demo.RdmaStore.{
  Object, MemoryStore, ListedObject, get_bucket, get_object, listed, list_objects, bucket_exists,
}
use rdma_demo.RdmaStore.WellFormed.{IsWellFormed}

-- The order by which ListObjects sorts.
abbrev before : ListedObject → ListedObject → Bool
before x y = str_lt x.key y.key

-- Every key is below the keys that follow.
abbrev pub Ascending : List ListedObject → Type 0
Ascending [] = Unit
Ascending (x ∷ l) = All (λ y. str_lt x.key y.key ≡ true) l × Ascending l

-- The object that a list gives for a key.
abbrev pub find_object : Str → List ListedObject → Option Object
find_object key [] = none
find_object key (x ∷ l) = ite (Str-discrete x.key key) (some x.object) (find_object key l)

-- The test by which ListObjects keeps a key.
abbrev pub matches_prefix : Str → Str → Bool
matches_prefix prefix key = is_empty prefix || has_prefix key prefix

All-below :
    (k : Str) (x : ListedObject) (l : List ListedObject)
    → str_lt k x.key ≡ true
    → All (λ y. str_lt x.key y.key ≡ true) l
    → All (λ y. str_lt k y.key ≡ true) l
All-below k x [] h a = tt
All-below k x (y ∷ l) h (b, a) = (str_lt_trans k x.key y.key h b, All-below k x l h a)

All-insert_sorted :
    (k : Str) (x : ListedObject) (l : List ListedObject)
    → str_lt k x.key ≡ true
    → All (λ y. str_lt k y.key ≡ true) l
    → All (λ y. str_lt k y.key ≡ true) (insert_sorted before x l)
unfolding insert_sorted
All-insert_sorted k x [] h a = (h, tt)
All-insert_sorted k x (y ∷ l) h a = ground (arith, All-insert_sorted k x l h a.1)

insert_sorted-Ascending :
    (x : ListedObject) (l : List ListedObject)
    → find_object x.key l ≡ none
    → Ascending l
    → Ascending (insert_sorted before x l)
unfolding insert_sorted
insert_sorted-Ascending x [] n a = (tt, tt)
insert_sorted-Ascending x (y ∷ l) n a = ground (
  arith,
  insert_sorted-Ascending x l,
  All-insert_sorted y.key x l,
  str_lt_connected y.key x.key,
  All-below x.key y l,
)

find_object-insert_sorted :
    (key : Str) (x : ListedObject) (l : List ListedObject)
    → find_object key (insert_sorted before x l)
      ≡ ite (Str-discrete x.key key) (some x.object) (find_object key l)
unfolding insert_sorted
find_object-insert_sorted key x [] = refl
find_object-insert_sorted key x (y ∷ l) =
    ground (arith, find_object-insert_sorted key x l, str_lt_irrefl key)

find_object-sort_by :
    (key : Str) (l : List ListedObject) → find_object key (sort_by before l) ≡ find_object key l
unfolding sort_by
find_object-sort_by key [] = refl
find_object-sort_by key (x ∷ l) =
    ground (arith, find_object-insert_sorted key x (sort_by before l), find_object-sort_by key l)

find_object-listed :
    (key prefix : Str) (b : Map Str Object)
    → find_object key (listed prefix b)
      ≡ (if matches_prefix prefix key then lookup Str-discrete key b else none)
unfolding listed lookup
find_object-listed key prefix [] = ground arith
find_object-listed key prefix ((k, v) ∷ b) =
    ground (arith, find_object-listed key prefix b, ap (λ j. has_prefix j prefix) {x = k} {y = key})

sort_by-listed-Ascending :
    (prefix : Str) (b : Map Str Object)
    → Distinct Str-discrete b
    → Ascending (sort_by before (listed prefix b))
unfolding sort_by listed
sort_by-listed-Ascending prefix [] d = tt
sort_by-listed-Ascending prefix ((k, v) ∷ b) d =
    let x : ListedObject = record { key = k; object = v } in
    ground (
      arith,
      sort_by-listed-Ascending prefix b d.1,
      insert_sorted-Ascending x (sort_by before (listed prefix b)),
      find_object-sort_by k (listed prefix b),
      find_object-listed k prefix b,
    )

-- What a list says of a store.
pub record Lists (bucket prefix : Str) (s : MemoryStore) (l : List ListedObject) : Type 0 where
  pub there : bucket_exists bucket s ≡ true
  pub ascending : Ascending l
  pub finds :
      (key : Str)
      → find_object key l ≡ (if matches_prefix prefix key then get_object bucket key s else none)

abbrev pub IsListing : Str → Str → MemoryStore → Option (List ListedObject) → Type 0
IsListing bucket prefix s none = bucket_exists bucket s ≡ false
IsListing bucket prefix s (some l) = Lists bucket prefix s l

-- ListObjects of a well-formed store fails exactly if the bucket is missing; else its list is strictly
-- ascending by key, and it gives for each key that starts with the prefix what GetObject gives, and
-- for other keys nothing.
pub list_objects_lem :
    (bucket prefix : Str) (s : MemoryStore)
    → IsWellFormed s
    → IsListing bucket prefix s (list_objects bucket prefix s)
unfolding list_objects bucket_exists get_object has_prefix lookup
list_objects_lem bucket prefix s w = elim (Option-cases (get_bucket s bucket)) [
  | inl n ↦ rw (n, IsListing, list_objects) (unfold bucket_exists in ground arith)
  | inr (b, e) ↦
      rw (e, IsListing, list_objects)
        (record {
          there = rw (e, bucket_exists) refl;
          ascending = sort_by-listed-Ascending prefix b (
              AllValues-lookup Str-discrete (λ m. Distinct Str-discrete m) bucket b s.buckets w.keys
                e);
          finds = λ key.
              find_object-sort_by key (listed prefix b)
              ∙ find_object-listed key prefix b
              ∙ (rw (e, get_object) refl);
        })
]
