-- ===== src/RdmaStore/Runs.antt =====
-- internal/s3rdmaserver/store/store.go: what a user of the store observes over any sequence of
-- calls, against a store that is a function.
use rdma_demo.Base.{
  ℕ, ◌≡◌, refl, Bool, true, false, Option, none, some, List, [], ◌∷◌, arith, ite, fun_ext, ap, ◌∙◌,
  if◌then◌else◌,
}
use rdma_demo.Base.Text.{Str, Str-discrete, is_empty, trim_space}
use rdma_demo.Base.Map.{Map, lookup, insert, erase, lookup-nil, lookup-insert, lookup-erase}
use rdma_demo.RdmaStore.{
  Object, MemoryStore, bucket_or_new, create_bucket, bucket_exists, delete_bucket, loaded_object,
  put_loaded_object, get_object, delete_object, get_bucket,
}

pub data Call : Type 0 where
  create : Str → Call
  exists : Str → Call
  delete_all : Str → Call
  put : ℕ → Str → Str → Str → ℕ → Call
  get : Str → Str → Call
  delete : Str → Str → Call

pub data Answer : Type 0 where
  done : Answer
  flag : Bool → Answer
  stored : Object → Answer
  found : Option Object → Answer

-- A store as a function: the objects of each bucket that is there.
abbrev pub View : Type 0
View = Str → Option (Str → Option Object)

abbrev contents : Map Str Object → Str → Option Object
contents b key = lookup Str-discrete key b

abbrev viewed : Option (Map Str Object) → Option (Str → Option Object)
viewed none = none
viewed (some b) = some (contents b)

abbrev pub view : MemoryStore → View
view s bucket = viewed (get_bucket s bucket)

abbrev pub at : Option (Str → Option Object) → Str → Option Object
at none key = none
at (some c) key = c key

abbrev pub is_there : Option (Str → Option Object) → Bool
is_there none = false
is_there (some c) = true

abbrev pub has_object : Option Object → Bool
has_object none = false
has_object (some o) = true

abbrev pub update {ℓ} : {A : Type ℓ} → Str → A → (Str → A) → Str → A
update k v f j = ite (Str-discrete k j) v (f j)

abbrev pub removed : Str → Option (Str → Option Object) → Option (Str → Option Object)
removed key none = none
removed key (some c) = some (update key none c)

abbrev pub present : Option (Str → Option Object) → Option (Str → Option Object)
present none = some (λ _. none)
present (some c) = some c

module _ (md5 : Str → Str) where
  -- a call of the store
  abbrev pub call : Call → MemoryStore → MemoryStore × Answer
  call (create name) s = (create_bucket name s, done)
  call (exists name) s = (s, flag (bucket_exists name s))
  call (delete_all name) s = let (s', b) = delete_bucket name s in (s', flag b)
  call (put now bucket key body modified) s =
      let (s', o) = put_loaded_object md5 now bucket key body modified s in (s', stored o)
  call (get bucket key) s = (s, found (get_object bucket key s))
  call (delete bucket key) s = let (s', b) = delete_object bucket key s in (s', flag b)

  -- the same call on a function
  abbrev pub call_view : Call → View → View × Answer
  call_view (create name) f =
      (if is_empty (trim_space name) then f else update name (present (f name)) f, done)
  call_view (exists name) f = (f, flag (is_there (f name)))
  call_view (delete_all name) f = (update name none f, flag (is_there (f name)))
  call_view (put now bucket key body modified) f =
      let o = loaded_object md5 now body modified in
      (update bucket (some (update key (some o) (at (f bucket)))) f, stored o)
  call_view (get bucket key) f = (f, found (at (f bucket) key))
  call_view (delete bucket key) f =
      (update bucket (removed key (f bucket)) f, flag (has_object (at (f bucket) key)))

  unfoldable pub run : List Call → MemoryStore → MemoryStore × List Answer
  run [] s = (s, [])
  run (c ∷ cs) s = let (s', a) = call c s in let (s'', rest) = run cs s' in (s'', a ∷ rest)

  pub replay : List Call → View → View × List Answer
  replay [] f = (f, [])
  replay (c ∷ cs) f =
      let (f', a) = call_view c f in let (f'', rest) = replay cs f' in (f'', a ∷ rest)

contents-insert :
    (key : Str) (o : Object) (b : Map Str Object)
    → contents (insert Str-discrete key o b) ≡ update key (some o) (contents b)
contents-insert key o b = fun_ext λ k. lookup-insert Str-discrete key k o b

contents-erase :
    (key : Str) (b : Map Str Object)
    → contents (erase Str-discrete key b) ≡ update key none (contents b)
contents-erase key b = fun_ext λ k. lookup-erase Str-discrete key k b

contents-nil : contents [] ≡ λ _. none
unfolding lookup
contents-nil = fun_ext λ k. refl

contents_absent :
    (key : Str) (b : Map Str Object)
    → contents b key ≡ none
    → contents b ≡ update key none (contents b)
contents_absent key b h = fun_ext λ k. ground arith

view-create_bucket :
    (name : Str) (s : MemoryStore)
    → view (create_bucket name s) ≡ (
        if is_empty (trim_space name) then view s else update name (present (view s name)) (view s))
unfolding create_bucket
view-create_bucket name s =
    fun_ext λ j. ground (arith, contents-nil, lookup-insert Str-discrete name j [] s.buckets)

view-delete_bucket :
    (name : Str) (s : MemoryStore) → view (delete_bucket name s).0 ≡ update name none (view s)
unfolding delete_bucket
view-delete_bucket name s = fun_ext λ j. ground (arith, lookup-erase Str-discrete name j s.buckets)

contents-bucket_or_new :
    (bucket : Str) (s : MemoryStore) → contents (bucket_or_new bucket s) ≡ at (view s bucket)
contents-bucket_or_new bucket s =
    fun_ext λ k. ground (arith, lookup-nil {V = Object} Str-discrete k)

contents-put :
    (key : Str) (o : Object) (bucket : Str) (s : MemoryStore)
    → contents (insert Str-discrete key o (bucket_or_new bucket s))
      ≡ update key (some o) (at (view s bucket))
contents-put key o bucket s =
    rw (← contents-bucket_or_new bucket s) (contents-insert key o (bucket_or_new bucket s))

view-put_loaded_object :
    (md5 : Str → Str) (now : ℕ) (bucket key body : Str) (modified : ℕ) (s : MemoryStore)
    → view (put_loaded_object md5 now bucket key body modified s).0
      ≡ update bucket
          (some (update key (some (loaded_object md5 now body modified)) (at (view s bucket))))
          (view s)
unfolding put_loaded_object
view-put_loaded_object md5 now bucket key body modified s =
    let o = loaded_object md5 now body modified in
    fun_ext λ j. ground (
      arith,
      contents-put key o bucket s,
      lookup-insert Str-discrete bucket j (insert Str-discrete key o (bucket_or_new bucket s))
          s.buckets,
    )

view-delete_object :
    (bucket key : Str) (s : MemoryStore)
    → view (delete_object bucket key s).0 ≡ update bucket (removed key (view s bucket)) (view s)
unfolding delete_object
view-delete_object bucket key s =
    let b = bucket_or_new bucket s in
    fun_ext λ j. ground (
      arith,
      contents-erase key b,
      contents_absent key b,
      lookup-insert Str-discrete bucket j (erase Str-discrete key b) s.buckets,
    )

module _ (md5 : Str → Str) where
  view-call :
      (c : Call) (s : MemoryStore)
      → (view (call md5 c s).0 ≡ (call_view md5 c (view s)).0)
        × ((call md5 c s).1 ≡ (call_view md5 c (view s)).1)
  view-call (create name) s = (view-create_bucket name s, refl)
  view-call (exists name) s = (refl, unfold bucket_exists in ground arith)
  view-call (delete_all name) s = (view-delete_bucket name s, unfold delete_bucket in ground arith)
  view-call (put now bucket key body modified) s =
      (view-put_loaded_object md5 now bucket key body modified s, unfold put_loaded_object in refl)
  view-call (get bucket key) s = (refl, unfold get_object in ground arith)
  view-call (delete bucket key) s =
      (view-delete_object bucket key s, unfold delete_object in ground arith)

  -- Any sequence of CreateBucket, BucketExists, DeleteBucket, PutLoadedObject, GetObject and
  -- DeleteObject gives the answers of a store that is a function from bucket names to functions
  -- from keys to objects, and leaves the buckets and the objects that are in that function.
  pub run_refines :
      (cs : List Call) (s : MemoryStore)
      → (view (run md5 cs s).0 ≡ (replay md5 cs (view s)).0)
        × ((run md5 cs s).1 ≡ (replay md5 cs (view s)).1)
  unfolding run replay
  run_refines [] s = (refl, refl)
  run_refines (c ∷ cs) s =
      let (v, a) = view-call c s in
      let (vs, as') = run_refines cs (call md5 c s).0 in (vs ∙ ap (λ f. (replay md5 cs f).0) v, cc)
