-- ===== src/S3Api/Paths.antt =====
-- internal/inmems3/s3api/handler.go: which bucket and key a path names
use rdma_demo.Base.{
  ℕ, suc, ◌≡◌, ◌≢◌, refl, ap, none, some, [], ◌∷◌, ◌++◌, All, take, drop, length, arith,
}
use rdma_demo.Base.Text.{Str, index_byte}
use rdma_demo.S3Api.Routing.{
  slash, percent, trim_slash, split_slash, unescape, path_unescape, at_path, bad_path, split_key,
  split_parts, split_bucket_and_key, invalid_key_path,
}

-- No byte of the text is this one.
abbrev pub Lacks : ℕ → Str → Type 0
Lacks b = All (λ c. c ≢ b)

unescape_plain : (s : Str) → Lacks percent s → path_unescape s ≡ some s
unfolding unescape
unescape_plain [] h = refl
unescape_plain (c ∷ s) h = ground (arith, unescape_plain s h.1)

index_byte-slash : (s t : Str) → Lacks slash s → index_byte (s ++ slash ∷ t) slash ≡ some (length s)
unfolding index_byte
index_byte-slash [] t h = refl
index_byte-slash (c ∷ s) t h = ground (arith, index_byte-slash s t h.1)

take_front : (s t : Str) → take (length s) (s ++ t) ≡ s
take_front [] t = refl
take_front (c ∷ s) t = ap (c ∷◌) (take_front s t)

drop_front : (s t : Str) (c : ℕ) → drop (suc (length s)) (s ++ c ∷ t) ≡ t
drop_front [] t c = refl
drop_front (b ∷ s) t c = drop_front s t c

split_slash_lem :
    (bucket key : Str)
    → Lacks slash bucket
    → split_slash (bucket ++ slash ∷ key) ≡ (bucket, some key)
unfolding split_slash
split_slash_lem bucket key h = ground (
  arith,
  index_byte-slash bucket key h,
  take_front bucket (slash ∷ key),
  drop_front bucket key slash,
)

-- The path of a bucket and a key that hold no `%` names that bucket and that key, if the bucket is not
-- empty and holds no slash; the key may hold slashes.
pub split_bucket_and_key_lem :
    (bucket key : Str)
    → bucket ≢ []
    → Lacks slash bucket
    → Lacks percent bucket
    → Lacks percent key
    → split_bucket_and_key (slash ∷ (bucket ++ slash ∷ key)) ≡ at_path bucket key
unfolding split_bucket_and_key trim_slash split_parts split_key
split_bucket_and_key_lem [] key ne flat b k = absurd (ne refl)
split_bucket_and_key_lem (c ∷ bucket) key ne flat b k = ground (
  arith,
  split_slash_lem (c ∷ bucket) key flat,
  unescape_plain (c ∷ bucket) b,
  unescape_plain key k,
)

unescape_lone : (s : Str) → Lacks percent s → path_unescape (s ++ percent ∷ []) ≡ none
unfolding unescape
unescape_lone [] h = refl
unescape_lone (c ∷ s) h = ground (arith, unescape_lone s h.1)

-- A path, decoded already, whose key ends in `%` is refused as invalid, for a key with no other `%`
-- and a bucket that is not empty and holds neither `/` nor `%`.
pub split_bucket_and_key-percent :
    (bucket key : Str)
    → bucket ≢ []
    → Lacks slash bucket
    → Lacks percent bucket
    → Lacks percent key
    → split_bucket_and_key (slash ∷ (bucket ++ slash ∷ (key ++ percent ∷ [])))
      ≡ bad_path invalid_key_path
unfolding split_bucket_and_key trim_slash split_parts split_key
split_bucket_and_key-percent [] key ne flat b k = absurd (ne refl)
split_bucket_and_key-percent (c ∷ bucket) key ne flat b k = ground (
  arith,
  split_slash_lem (c ∷ bucket) (key ++ percent ∷ []) flat,
  unescape_plain (c ∷ bucket) b,
  unescape_lone key k,
)
