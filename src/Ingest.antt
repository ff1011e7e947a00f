-- ===== src/Ingest.antt =====
-- internal/inmems3/ingest/put.go: what is kept of an uploaded body, its size and its ETag.
-- A body is the sequence of its reads; one that ends with io.EOF, one that ends with another error.
-- The hash that the source writes piece by piece is that of the bytes written so far.
use rdma_demo.Base.{
  ℕ, ◌+◌, ◌≤◌, ◌<◌, ◌≡◌, ◌↔◌, ◌⊎◌, refl, Bool, true, false, ◌&&◌, [], ◌∷◌, ◌++◌, length,
  length-append, if◌then◌else◌, arith, ap, subst, if-elim, ◌∙◌, sym,
}
use rdma_demo.Base.Int.{ℤ, pos, ltb_ℤ, add64, add64-pos, half_range, ◌≤ℤ◌}
use rdma_demo.Base.Text.{Str, hex_encode}

pub data Body : Type 0 where
  at_end fails : Str → Body
  gives : Str → Body → Body

pub record Receipt : Type 0 where
  pub etag : Str
  pub size : ℤ

pub data Ingested : Type 0 where
  consumed : Receipt → Ingested
  too_large : ℤ → ℤ → Ingested
  read_failed : Ingested

unfoldable pub result_for_sum : (Str → Str) → Str → ℤ → Receipt
result_for_sum md5 hashed size = record {
  etag = (0x22 ∷ hex_encode (md5 hashed)) ++ 0x22 ∷ [];
  size = size;
}

unfoldable pub result_for_bytes : (Str → Str) → Str → Receipt
result_for_bytes md5 payload = record {
  etag = (0x22 ∷ hex_encode (md5 payload)) ++ 0x22 ∷ [];
  size = pos (length payload);
}

-- `size > maxObjectSize`, with a limit, after a read that gave bytes
abbrev pub over : ℤ → Str → ℤ → Bool
over max_object_size [] size = false
over max_object_size (c ∷ cs) size = ltb_ℤ (pos 0) max_object_size && ltb_ℤ max_object_size size

-- The loop of ConsumeReader, with the bytes hashed so far and their number.
unfoldable pub consume : (Str → Str) → ℤ → Body → Str → ℤ → Ingested
consume md5 max_object_size (at_end chunk) hashed size =
    let size' = add64 size (pos (length chunk)) in
    if over max_object_size chunk size'
    then too_large size' max_object_size
    else consumed (result_for_sum md5 (hashed ++ chunk) size')
consume md5 max_object_size (fails chunk) hashed size =
    let size' = add64 size (pos (length chunk)) in
    if over max_object_size chunk size' then too_large size' max_object_size else read_failed
consume md5 max_object_size (gives chunk rest) hashed size =
    let size' = add64 size (pos (length chunk)) in
    let after = consume md5 max_object_size rest (hashed ++ chunk) size' in
    if over max_object_size chunk size' then too_large size' max_object_size else after

unfoldable pub consume_reader : (Str → Str) → ℤ → Body → Ingested
unfolding consume
consume_reader md5 max_object_size body = consume md5 max_object_size body [] (pos 0)

-- All bytes of a body, whatever the pieces.
abbrev pub content : Body → Str
content (at_end chunk) = chunk
content (fails chunk) = chunk
content (gives chunk rest) = chunk ++ content rest

abbrev pub ends : Body → Bool
ends (at_end chunk) = true
ends (fails chunk) = false
ends (gives chunk rest) = ends rest

-- Not above the limit, if there is one.
abbrev pub Within : ℤ → ℕ → Type 0
Within max_object_size n = (max_object_size ≤ℤ pos 0) ⊎ (pos n ≤ℤ max_object_size)

over-Within : (max : ℤ) (chunk : Str) (n : ℕ) → Within max n → over max chunk (pos n) ≡ false
over-Within max [] n h = refl
over-Within max (c ∷ cs) n h = ground arith

Within-over :
    (max : ℤ) (chunk : Str) (n : ℕ)
    → Within max n
    → over max chunk (pos (n + length chunk)) ≡ false
    → Within max (n + length chunk)
Within-over max [] n h e = ground arith
Within-over max (c ∷ cs) n h e = ground arith

Within-le : (max : ℤ) (m n : ℕ) → m ≤ n → Within max n → Within max m
Within-le max m n h w = ground arith

append_assoc : (a b c : Str) → a ++ (b ++ c) ≡ (a ++ b) ++ c
append_assoc [] b c = refl
append_assoc (x ∷ a) b c = ap (x ∷◌) (append_assoc a b c)

module _ (md5 : Str → Str) (max : ℤ) where
  -- What is consumed in the end, from the bytes hashed and counted so far.
  abbrev whole : Body → Str → ℕ → Receipt
  whole body hashed n =
      result_for_sum md5 (hashed ++ content body) (pos (n + length (content body)))

  whole_gives :
      (chunk : Str) (rest : Body) (hashed : Str) (n : ℕ)
      → whole (gives chunk rest) hashed n ≡ whole rest (hashed ++ chunk) (n + length chunk)
  whole_gives chunk rest hashed n =
      let bytes = append_assoc hashed chunk (content rest) in
      let total : n + length (chunk ++ content rest) ≡ n + length chunk + length (content rest) =
        omega (arith, length-append chunk (content rest)) in
      ap (λ b. result_for_sum md5 b (pos (n + length (chunk ++ content rest)))) bytes
      ∙ ap (λ k. result_for_sum md5 ((hashed ++ chunk) ++ content rest) (pos k)) total

  -- A body that ends well and is within the limit is consumed.
  consume_complete :
      (body : Body) (hashed : Str) (n : ℕ)
      → n + length (content body) < half_range
      → ends body ≡ true
      → Within max (n + length (content body))
      → consume md5 max body hashed (pos n) ≡ consumed (whole body hashed n)
  unfolding consume
  consume_complete (at_end chunk) hashed n small e w =
      rw (add64-pos n (length chunk) small, over-Within max chunk (n + length chunk) w) refl
  consume_complete (fails chunk) hashed n small e w = absurd (ground arith)
  consume_complete (gives chunk rest) hashed n small e w =
      let sum = length-append chunk (content rest) in
      rw
        (
          add64-pos n (length chunk) (omega (arith, sum)),
          over-Within max chunk (n + length chunk) (Within-le max _ _ (omega (arith, sum)) w),
        )
        (consume_complete rest (hashed ++ chunk) (n + length chunk) (omega (arith, sum)) e
            (subst (Within max) (omega (arith, sum)) w)
          ∙ ap consumed (sym (whole_gives chunk rest hashed n)))

  -- ConsumeReader's loop succeeds only so.
  consume_sound :
      (body : Body) (hashed : Str) (n : ℕ) (r : Receipt)
      → n + length (content body) < half_range
      → Within max n
      → consume md5 max body hashed (pos n) ≡ consumed r
      → (ends body ≡ true) × Within max (n + length (content body)) × (r ≡ whole body hashed n)
  unfolding consume
  consume_sound (at_end chunk) hashed n r small w h =
      if-elim
        (λ (x : Ingested).
          x ≡ consumed r
          → (true ≡ true) × Within max (n + length chunk) × (r ≡ whole (at_end chunk) hashed n))
        (over max chunk (pos (n + length chunk))) (λ _ k. absurd (ground arith))
        (λ fits k. (refl, Within-over max chunk n w fits, ground arith))
        (rw (add64-pos n (length chunk) small) at h)
  consume_sound (fails chunk) hashed n r small w h =
      if-elim
        (λ (x : Ingested).
          x ≡ consumed r
          → (false ≡ true) × Within max (n + length chunk) × (r ≡ whole (fails chunk) hashed n))
        (over max chunk (pos (n + length chunk))) (λ _ k. absurd (ground arith))
        (λ fits k. absurd (ground arith)) (rw (add64-pos n (length chunk) small) at h)
  consume_sound (gives chunk rest) hashed n r small w h =
      let sum = length-append chunk (content rest) in
      if-elim
        (λ (x : Ingested).
          x ≡ consumed r
          → (ends rest ≡ true)
            × Within max (n + length (chunk ++ content rest))
            × (r ≡ whole (gives chunk rest) hashed n))
        (over max chunk (pos (n + length chunk))) (λ _ k. absurd (ground arith))
        (λ fits k.
          let (e, within, same) =
            consume_sound rest (hashed ++ chunk) (n + length chunk) r (omega (arith, sum))
              (Within-over max chunk n w fits) k in
          (
            e,
            subst (Within max) (omega (arith, sum)) within,
            same ∙ sym (whole_gives chunk rest hashed n),
          ))
        (rw (add64-pos n (length chunk) (omega (arith, sum))) at h)

  -- ConsumeReader succeeds exactly if the body ends well and is within the limit, if there is one, and
  -- then its result is that of ResultForBytes for the whole body, in whatever pieces it was read. The
  -- condition is that the size of the body fits into an int64.
  pub consume_reader_lem :
      (body : Body) (r : Receipt)
      → length (content body) < half_range
      → (consume_reader md5 max body ≡ consumed r) ↔ (
          (ends body ≡ true)
          × Within max (length (content body))
          × (r ≡ result_for_bytes md5 (content body)))
  unfolding consume_reader result_for_bytes result_for_sum
  consume_reader_lem body r small =
      let count : 0 + length (content body) ≡ length (content body) = omega arith in
      let same_receipt : whole body [] 0 ≡ result_for_bytes md5 (content body) =
        ap (λ k. result_for_sum md5 (content body) (pos k)) count in
      (
        λ h.
            let (e, w, same) = consume_sound body [] 0 r (omega arith) (ground arith) h in
            (e, subst (Within max) count w, same ∙ same_receipt),
        λ (e, w, same).
            consume_complete body [] 0 (omega arith) e (subst (Within max) (sym count) w)
            ∙ ap consumed (same_receipt ∙ sym same),
      )
