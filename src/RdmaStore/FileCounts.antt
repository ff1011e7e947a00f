-- ===== src/RdmaStore/FileCounts.antt =====
-- internal/s3rdmaserver/store/loader.go: how many files and bytes a bucket's directory has
use rdma_demo.Base.{
  ℕ, ◌+◌, ◌≡◌, refl, ap, Bool, none, some, List, [], ◌∷◌, ◌++◌, ◌∙◌, length, arith,
}
use rdma_demo.Base.Text.{str_lt}
use rdma_demo.Base.Sort.{sort_by, insert_sorted}
use rdma_demo.RdmaStore.Loader.{
  PendingObject, Visit, walk_error, skipped, regular, pending_object, walk_objects,
  load_bucket_objects,
}
use rdma_demo.RdmaStore.Imported.{load_bucket_objects-some}

-- The sum of a measure over some objects.
abbrev pub total : (PendingObject → ℕ) → List PendingObject → ℕ
total f [] = 0
total f (x ∷ l) = f x + total f l

abbrev pub one : PendingObject → ℕ
one x = 1

abbrev pub bytes : PendingObject → ℕ
bytes x = length x.body

-- The files of a walk and their bytes.
abbrev pub file_count : List Visit → ℕ
file_count [] = 0
file_count (regular (some body) (some modified) (some rel) ∷ rest) = 1 + file_count rest
file_count (visit ∷ rest) = file_count rest

abbrev pub byte_count : List Visit → ℕ
byte_count [] = 0
byte_count (regular (some body) (some modified) (some rel) ∷ rest) = length body + byte_count rest
byte_count (visit ∷ rest) = byte_count rest

total-append :
    (f : PendingObject → ℕ) (l r : List PendingObject) → total f (l ++ r) ≡ total f l + total f r
total-append f [] r = omega arith
total-append f (x ∷ l) r = omega (arith, total-append f l r)

module _ (less : PendingObject → PendingObject → Bool) (f : PendingObject → ℕ) where
  total-insert_sorted :
      (a : PendingObject) (l : List PendingObject)
      → total f (insert_sorted less a l) ≡ f a + total f l
  unfolding insert_sorted
  total-insert_sorted a [] = refl
  total-insert_sorted a (x ∷ l) = ground (arith, total-insert_sorted a l)

  total-sort_by : (l : List PendingObject) → total f (sort_by less l) ≡ total f l
  unfolding sort_by
  total-sort_by [] = refl
  total-sort_by (a ∷ l) =
      total-insert_sorted a (sort_by less l) ∙ ap (λ n. f a + n) (total-sort_by l)

walk_objects_counts :
    (visits : List Visit) (objects done : List PendingObject)
    → walk_objects visits objects ≡ some done
    → (total one done ≡ total one objects + file_count visits)
      × (total bytes done ≡ total bytes objects + byte_count visits)
unfolding walk_objects pending_object
walk_objects_counts [] objects done h = ground arith
walk_objects_counts (walk_error ∷ rest) objects done h = absurd (ground arith)
walk_objects_counts (skipped ∷ rest) objects done h = walk_objects_counts rest objects done h
walk_objects_counts (regular none m rel ∷ rest) objects done h = absurd (ground arith)
walk_objects_counts (regular (some b) none rel ∷ rest) objects done h = absurd (ground arith)
walk_objects_counts (regular (some b) (some m) none ∷ rest) objects done h = absurd (ground arith)
walk_objects_counts (regular (some b) (some m) (some rel) ∷ rest) objects done h =
    let x : PendingObject = record { key = rel; body = b; last_modified = m } in
    let (n, k) = walk_objects_counts rest (objects ++ x ∷ []) done h in
    (
      omega (arith, n, total-append one objects (x ∷ [])),
      omega (arith, k, total-append bytes objects (x ∷ [])),
    )

pub load_bucket_objects_counts :
    (visits : List Visit) (objects : List PendingObject)
    → load_bucket_objects visits ≡ some objects
    → (total one objects ≡ file_count visits) × (total bytes objects ≡ byte_count visits)
load_bucket_objects_counts visits objects h =
    let (l, e, sorted) = load_bucket_objects-some visits objects h in
    let (n, k) = walk_objects_counts visits [] l e in
    (
      rw sorted (omega (arith, total-sort_by (λ x y. str_lt x.key y.key) one l, n)),
      rw sorted (omega (arith, total-sort_by (λ x y. str_lt x.key y.key) bytes l, k)),
    )
