-- ===== src/Payloads/Replacement.antt =====
-- internal/inmems3/payload/loader.go over internal/inmems3/store/store.go: the part of AddFolder that
-- replaces one bucket, whether the store takes every object or refuses one
use rdma_demo.Base.{ℕ, ◌+◌, ◌≡◌, ◌≢◌, Option, none, some, List, [], ◌∷◌, ◌++◌, ite, length}
use rdma_demo.Base.Text.{Str, Str-discrete}
use rdma_demo.InmemStore.State.{Object, MemoryStore, get_object}
use rdma_demo.InmemStore.Methods.{new_object}
use rdma_demo.Payloads.Files.{GoError}
use rdma_demo.Payloads.Loader.{PendingObject}

abbrev pub bytes_of : List PendingObject → ℕ
bytes_of [] = 0
bytes_of (obj ∷ objs) = length obj.body + bytes_of objs

-- All objects were stored and there is no error, or some were not and there is one.
abbrev pub Ended : Option GoError → List PendingObject → Type 0
Ended none left = left ≡ []
Ended (some e) left = left ≢ []

module _ (md5 : Str → Str) (now : ℕ) where
  -- What a key of the bucket reads as after these objects: the last one with the key, or what was
  -- there.
  abbrev pub last_stored : Str → List PendingObject → Option Object → Option Object
  last_stored key [] o = o
  last_stored key (obj ∷ objs) o =
      last_stored key objs (ite (Str-discrete obj.key key) (some (new_object md5 now obj.body)) o)

  -- After the objects `stored` of `objects`, in a store that had `s`.
  pub record Stored (bucket : Str) (objects : List PendingObject)
      (before : Str → Str → Option Object) (e : Option GoError) (s' : MemoryStore) : Type 0 where
    pub stored : List PendingObject
    pub left : List PendingObject
    pub parts : objects ≡ stored ++ left
    pub ended : Ended e left
    pub reads :
        (bucket' key : Str)
        → get_object bucket' key s'
          ≡ ite
              (Str-discrete bucket bucket')
              (last_stored key stored (before bucket' key))
              (before bucket' key)
