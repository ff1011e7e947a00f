-- ===== src/RdmaClient/Payloads.antt =====
-- pkg/rdma/client/client.go: the payloads of GetZeroCopy and PutZeroCopy, and Release
use rdma_demo.RdmaClient.Owed.{give_back-counts, give_back-releases}
use rdma_demo.RdmaClient.Answers.{fresh_id}
use rdma_demo.Base.{
  ℕ, zero, ◌-◌, suc, ◌+◌, ◌≤◌, ◌<◌, ◌≡◌, refl, Bool, true, false, Option, none, some, [], ◌∷◌, ◌++◌,
  arith, ℕ_discrete, if◌then◌else◌, if-elim, ◌==◌, length, take, drop, ap, ◌∙◌, sym, subst,
}
use rdma_demo.Base.Int.{ℤ, pos, negsuc, pos_part, half_range, add64, add64-pos, eqb_ℤ-sound, ◌≤ℤ◌}
use rdma_demo.Base.Text.{Str}
use rdma_demo.Base.Map.{lookup, erase, lookup-erase}
use rdma_demo.ZcopyProto.{Message}
use rdma_demo.Transport.{control, payload_at, Borrowed}
use rdma_demo.RdmaClient.Config.{BufferRef}
use rdma_demo.RdmaClient.State.{
  Client, ClientError, send_frame, remove_pending, send_serialized, register_pending,
  next_request_id,
}
use rdma_demo.RdmaClient.Calls.{
  after_request, put_message, slice, after_put_req, send_put, request_put,
}
use rdma_demo.RdmaClient.Results.{meta_good, check_meta, release, release_token}

check_meta_offset :
    (region : ℕ) (max_size : ℤ) (msg : Message) (b : Borrowed) (o : ℤ)
    → check_meta region max_size msg b ≡ meta_good o
    → msg.data_offset ≡ some o
unfolding check_meta
check_meta_offset region max_size msg b o h = ground arith

check_meta_exact :
    (region : ℕ) (max_size : ℤ) (msg : Message) (b : Borrowed) (o : ℤ)
    → check_meta region max_size msg b ≡ meta_good o
    → (pos (length b.payload) ≡ msg.size)
      × (b.shared_offset ≡ o)
      × (pos 0 ≤ℤ o)
      × (msg.size ≤ℤ max_size)
      × (add64 o msg.size ≤ℤ pos region)
unfolding check_meta
check_meta_exact region max_size msg b o h =
    let size_eq = eqb_ℤ-sound (pos (length b.payload)) msg.size in
    let offset_eq = eqb_ℤ-sound b.shared_offset o in
    (ground (arith, size_eq), ground (arith, offset_eq), ground arith, ground arith, ground arith)

in_region :
    (o : ℤ) (n region : ℕ)
    → pos 0 ≤ℤ o
    → pos_part o + n < half_range
    → add64 o (pos n) ≤ℤ pos region
    → pos_part o + n ≤ region
in_region (pos o) n region nonneg small h = ground (arith, add64-pos o n small)
in_region (negsuc o) n region nonneg small h = absurd (omega (arith, nonneg))

-- A payload is accepted only if its size is what the message says, not negative and at most the
-- maximum, if it lies at the offset that the message says, and if its bytes lie in the shared memory.
-- The condition is that the end of what the transport returned can be counted in an int.
pub check_meta-accepts :
    (region : ℕ) (max_size : ℤ) (msg : Message) (b : Borrowed) (o : ℤ)
    → check_meta region max_size msg b ≡ meta_good o
    → pos_part b.shared_offset + length b.payload < half_range
    → (pos 0 ≤ℤ o)
      × (msg.size ≡ pos (length b.payload))
      × (msg.size ≤ℤ max_size)
      × (o ≡ b.shared_offset)
      × (pos_part o + length b.payload ≤ region)
check_meta-accepts region max_size msg b o h small =
    let (size_eq, offset_eq, nonneg, fits, inside) = check_meta_exact region max_size msg b o h in
    (
      nonneg,
      sym size_eq,
      fits,
      sym offset_eq,
      in_region o (length b.payload) region nonneg
          (subst (λ z. pos_part z + length b.payload < half_range) offset_eq small)
          (subst (λ z. add64 o z ≤ℤ pos region) (sym size_eq) inside),
    )

abbrev pub held : BufferRef → Client → Option Borrowed
held ref c = if ref.token == 0 then none else lookup ℕ_discrete ref.token c.releases

length-take : (n : ℕ) (xs : Str) → n ≤ length xs → length (take n xs) ≡ n
length-take zero xs h = refl
length-take (suc n) [] h = absurd (omega arith)
length-take (suc n) (x ∷ xs) h = ap suc (length-take n xs (omega arith))

length-drop : (n : ℕ) (xs : Str) → length (drop n xs) ≡ length xs - n
length-drop zero xs = omega arith
length-drop (suc n) [] = omega arith
length-drop (suc n) (x ∷ xs) = omega (arith, length-drop n xs)

pub slice_lem :
    (memory : Str) (ref : BufferRef)
    → pos_part ref.offset + pos_part ref.size ≤ length memory
    → length (slice memory ref) ≡ pos_part ref.size
unfolding slice
slice_lem memory ref h =
    length-take (pos_part ref.size) (drop (pos_part ref.offset) memory)
      (omega (arith, length-drop (pos_part ref.offset) memory))

module _ (delivers : ℕ → Bool) where
  release_absent : (ref : BufferRef) (c : Client) → held ref c ≡ none → release delivers ref c ≡ c
  unfolding release release_token
  release_absent ref c h = ground arith

  release-releases : (ref : BufferRef) (c : Client) → held ref (release delivers ref c) ≡ none
  unfolding release release_token
  release-releases ref c = ground (
    arith,
    ap (lookup ℕ_discrete ref.token) (
        give_back-releases delivers
          (record c { releases = erase ℕ_discrete ref.token c.releases })),
    lookup-erase ℕ_discrete ref.token ref.token c.releases,
  )

  -- Release gives a payload back to the transport, with one acknowledgement, if the reference holds
  -- one, and does nothing otherwise; a second Release of the same reference does nothing.
  pub release_lem :
      (ref : BufferRef) (c : Client)
      → ((release delivers ref c).acks
          ≡ (elim (held ref c) [ none ↦ c.acks | some b ↦ suc c.acks ]))
        × ((release delivers ref c).released
            ≡ (elim (held ref c) [ none ↦ c.released | some b ↦ suc c.released ]))
        × (release delivers ref (release delivers ref c) ≡ release delivers ref c)
  unfolding release release_token
  release_lem ref c =
      let counts =
        give_back-counts delivers (record c { releases = erase ℕ_discrete ref.token c.releases }) in
      (
        ground (arith, counts),
        ground (arith, counts),
        release_absent ref (release delivers ref c) (release-releases ref c),
      )

  after_request-sent :
      (id : ℕ) (r : Client × Option ClientError) → (after_request id r).0.sent ≡ r.0.sent
  unfolding after_request remove_pending
  after_request-sent id (c, none) = refl
  after_request-sent id (c, some e) = refl

  send_serialized-live :
      (op : Client → Client × Option ClientError) (c : Client)
      → c.closed ≡ false
      → (send_serialized op c).0.sent ≡ (op c).0.sent
  unfolding send_serialized
  send_serialized-live op c live =
      if-elim (λ (r : Client × Option ClientError). r.0.sent ≡ (op c).0.sent) c.closed
        (λ shut. absurd (ground arith)) (λ _. refl)

  send_put_lem :
      (msg : Message) (p : Str) (o : ℤ) (c : Client)
      → delivers c.attempts ≡ true
      → delivers (suc c.attempts) ≡ true
      → (send_put delivers msg p o c).0.sent ≡ (c.sent ++ control msg ∷ []) ++ payload_at p o ∷ []
  unfolding send_put send_frame after_put_req
  send_put_lem msg p o c first second = ground arith

  -- PutZeroCopy, on a client that is not closed and with two sends that succeed, sends the request and
  -- right behind it the bytes of the reference, to be written at the offset of the reference.
  pub request_put_lem :
      (bucket key : Str) (ref : BufferRef) (c : Client)
      → c.closed ≡ false
      → delivers c.attempts ≡ true
      → delivers (suc c.attempts) ≡ true
      → (request_put delivers bucket key ref c).0.sent
        ≡ (c.sent ++ control (put_message bucket key ref (fresh_id c)) ∷ [])
          ++ payload_at (slice c.shared_memory ref) ref.offset ∷ []
  unfolding request_put next_request_id register_pending
  request_put_lem bucket key ref c live first second =
      let id = fresh_id c in
      let c' = register_pending id (record c { next_req_id = id }) in
      let msg = put_message bucket key ref id in
      let p = slice c.shared_memory ref in
      let op = send_put delivers msg p ref.offset in
      after_request-sent id (send_serialized op c')
      ∙ send_serialized-live op c' live
      ∙ send_put_lem msg p ref.offset c' first second
