-- ===== src/RdmaApi/Uploads.antt =====
-- internal/s3rdmaserver/s3api/handler.go: consumeBody, which reads the body of an upload to its end
-- and keeps its size and its hash. A body is the sequence of its reads, as in Ingest.
use rdma_demo.Base.{◌≡◌, Bool, false, ◌&&◌, [], ◌∷◌, ◌++◌, length, if◌then◌else◌, arith}
use rdma_demo.Base.Int.{ℤ, pos, ltb_ℤ, add64}
use rdma_demo.Base.Text.{Str, hex_encode}
use rdma_demo.Ingest.{Body, at_end, fails, gives, Ingested, result_for_sum, consume, consume_reader}

pub record ConsumeResult : Type 0 where
  pub etag : Str
  pub size : ℤ

pub data Consumed : Type 0 where
  complete : ConsumeResult → Consumed
  object_too_large : ℤ → ℤ → Consumed
  body_failed : Consumed

unfoldable pub quoted_hash : (Str → Str) → Str → Str
quoted_hash md5 hashed = (0x22 ∷ hex_encode (md5 hashed)) ++ 0x22 ∷ []

-- The guard after a read that gave bytes, and what its size is then.
unfoldable pub exceeds : ℤ → Str → ℤ → Bool
exceeds max_object_size [] size = false
exceeds max_object_size (c ∷ cs) size = ltb_ℤ (pos 0) max_object_size && ltb_ℤ max_object_size size

-- The loop, with the bytes hashed so far and their number.
unfoldable pub consume_from : (Str → Str) → ℤ → Body → Str → ℤ → Consumed
unfolding exceeds quoted_hash
consume_from md5 max_object_size (at_end chunk) hashed size =
    let size' = add64 size (pos (length chunk)) in
    if exceeds max_object_size chunk size'
    then object_too_large size' max_object_size
    else complete (record { etag = quoted_hash md5 (hashed ++ chunk); size = size' })
consume_from md5 max_object_size (fails chunk) hashed size =
    let size' = add64 size (pos (length chunk)) in
    if exceeds max_object_size chunk size'
    then object_too_large size' max_object_size
    else body_failed
consume_from md5 max_object_size (gives chunk rest) hashed size =
    let size' = add64 size (pos (length chunk)) in
    let after = consume_from md5 max_object_size rest (hashed ++ chunk) size' in
    if exceeds max_object_size chunk size' then object_too_large size' max_object_size else after

unfoldable pub consume_body : (Str → Str) → ℤ → Body → Consumed
unfolding consume_from
consume_body md5 max_object_size body = consume_from md5 max_object_size body [] (pos 0)

-- The outcome of the in-memory server's ConsumeReader in the terms of consumeBody.
abbrev pub as_consumed : Ingested → Consumed
as_consumed (Ingested.consumed r) = complete (record { etag = r.etag; size = r.size })
as_consumed (Ingested.too_large size max) = object_too_large size max
as_consumed Ingested.read_failed = body_failed

consume_from-as_consumed :
    (md5 : Str → Str) (max : ℤ) (body : Body) (hashed : Str) (size : ℤ)
    → consume_from md5 max body hashed size ≡ as_consumed (consume md5 max body hashed size)
unfolding consume_from consume exceeds quoted_hash result_for_sum
consume_from-as_consumed md5 max (at_end []) hashed size = ground arith
consume_from-as_consumed md5 max (at_end (c ∷ cs)) hashed size = ground arith
consume_from-as_consumed md5 max (fails []) hashed size = ground arith
consume_from-as_consumed md5 max (fails (c ∷ cs)) hashed size = ground arith
consume_from-as_consumed md5 max (gives [] rest) hashed size =
    ground (arith, consume_from-as_consumed md5 max rest (hashed ++ []) (add64 size (pos 0)))
consume_from-as_consumed md5 max (gives (c ∷ cs) rest) hashed size = ground (
  arith,
  consume_from-as_consumed md5 max rest (hashed ++ c ∷ cs) (add64 size (pos (length (c ∷ cs)))),
)

-- consumeBody of the RDMA server and ConsumeReader of the in-memory server agree on every body: the
-- same ETag and size, the same refusal of an upload that is too large, the same failed reads.
pub consume_body-consume_reader :
    (md5 : Str → Str) (max : ℤ) (body : Body)
    → consume_body md5 max body ≡ as_consumed (consume_reader md5 max body)
unfolding consume_body consume_reader
consume_body-consume_reader md5 max body = consume_from-as_consumed md5 max body [] (pos 0)
