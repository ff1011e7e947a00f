-- ===== src/InmemStore/Ids.antt =====
-- internal/inmems3/store/store.go: makeObjectID and splitObjectID
use rdma_demo.Base.{
  ℕ, zero, suc, ◌≡◌, ◌≢◌, refl, ap, inl, inr, some, [], ◌∷◌, ◌++◌, All, arith, take, drop, length,
  Option-cases,
}
use rdma_demo.Base.Text.{Str, index_byte}
use rdma_demo.InmemStore.State.{make_object_id, split_at, split_object_id}

-- The text around the first occurrence of a byte.
index_byte-split :
    (s : Str) (c i : ℕ) → index_byte s c ≡ some i → take i s ++ c ∷ drop (suc i) s ≡ s
unfolding index_byte
index_byte-split [] c i h = cc
index_byte-split (b ∷ s) c zero h = ground arith
index_byte-split (b ∷ s) c (suc i) h = ground (arith, index_byte-split s c i)

split_at-make :
    (id bucket key : Str) (i : ℕ)
    → index_byte id 0 ≡ some i
    → split_at id i ≡ some (bucket, key)
    → make_object_id bucket key ≡ id
unfolding split_at make_object_id
split_at-make id bucket key zero e h = cc
split_at-make id bucket key (suc k) e h = ground (arith, index_byte-split id 0 (suc k) e)

-- An id that splits is the id of its parts.
pub make_object_id-split_object_id :
    (id bucket key : Str) → split_object_id id ≡ some (bucket, key) → make_object_id bucket key ≡ id
unfolding split_object_id
make_object_id-split_object_id id bucket key h = elim (Option-cases (index_byte id 0)) [
  | inl e ↦ ground arith
  | inr (i, e) ↦ split_at-make id bucket key i e (ground arith)
]

abbrev pub HasNoNul : Str → Type 0
HasNoNul = All (λ c. c ≢ 0)

take-append : (s t : Str) → take (length s) (s ++ t) ≡ s
take-append [] t = refl
take-append (c ∷ s) t = ap (◌∷◌ c) (take-append s t)

drop-append : (s t : Str) (c : ℕ) → drop (suc (length s)) (s ++ c ∷ t) ≡ t
drop-append [] t c = refl
drop-append (b ∷ s) t c = drop-append s t c

index_byte-append : (s t : Str) → HasNoNul s → index_byte (s ++ 0 ∷ t) 0 ≡ some (length s)
unfolding index_byte
index_byte-append [] t h = refl
index_byte-append (c ∷ s) t h = ground (arith, index_byte-append s t h.1)

-- The id of a bucket with a name that is not empty and holds no NUL splits into bucket and key.
pub split_object_id-make_object_id :
    (bucket key : Str)
    → bucket ≢ []
    → HasNoNul bucket
    → split_object_id (make_object_id bucket key) ≡ some (bucket, key)
unfolding split_object_id make_object_id
split_object_id-make_object_id [] key ne h = absurd (ne refl)
split_object_id-make_object_id (c ∷ b) key ne h = ground (
  arith,
  index_byte-append (c ∷ b) key h,
  take-append (c ∷ b) (0 ∷ key),
  drop-append (c ∷ b) key 0,
)
