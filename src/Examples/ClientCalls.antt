-- ===== src/Examples/ClientCalls.antt =====
-- pkg/rdma/client/client.go on a small shared memory
use rdma_demo.Base.{
  ℕ, ◌+◌, ◌*◌, ◌≤◌, ◌≡◌, ◌≢◌, refl, inl, ◌⊎◌, ◌↔◌, none, some, [], ◌∷◌, length, arith, Bool, true,
  false, ite, if◌then◌else◌, ℕ_discrete,
}
use rdma_demo.Base.Int.{pos, pos_part, ◌≤ℤ◌, add64}
use rdma_demo.Base.Text.{trim_space}
use rdma_demo.Base.Map.Weight.{weight}
use rdma_demo.ZcopyProto.{Message, blank, op_get_meta, Json}
use rdma_demo.Transport.{Borrowed}
use rdma_demo.ZcopyServer.Conn.{done, check_payload}
use rdma_demo.ZcopyServer.Handlers.{put_accepted, check_put}
use rdma_demo.RdmaClient.Config.{
  BufferRef, validate_ref, validate_ref-accepts, compute_safe_credits, compute_safe_credits-bounds,
  or_else, default_max_credits, end,
}
use rdma_demo.RdmaClient.State.{Client, net_closed, broken, new_client, deliver}
use rdma_demo.RdmaClient.Calls.{put_message, slice, start_put_zero_copy}
use rdma_demo.RdmaClient.Results.{meta_good, check_meta}
use rdma_demo.RdmaClient.Owed.{one, brings}
use rdma_demo.RdmaClient.Acks.{here, next, starts_put, acks-le-received}
use rdma_demo.RdmaClient.Answers.{box, waiting_for, deliver_lem}
use rdma_demo.RdmaClient.Payloads.{check_meta-accepts}
use rdma_demo.EndToEnd.{put_message-accepted}
use rdma_demo.Examples.Loaded.{bucket_b, key_k, abc}

abbrev succeeds : ℕ → Bool
succeeds n = true

-- A memory of three bytes.
abbrev client : Client
client = new_client abc (pos 0) (pos 0)

abbrev last_two : BufferRef
last_two = record { offset = pos 1; size = pos 2; token = 0 }

-- A codec that decodes nothing.
abbrev mute : Json
mute = record {
  marshal = λ m. none;
  unmarshal = λ b. none;
  IsUtf8 = λ m. ⊥;
  unmarshal-marshal = λ m h. absurd h;
}

abbrev after_put : Client
after_put = (start_put_zero_copy succeeds bucket_b key_k last_two client).0

acks-le-received_example :
    after_put.acks + weight one after_put.releases + weight brings after_put.boxes ≤ 0
acks-le-received_example =
    acks-le-received succeeds mute abc (pos 0) (pos 0) {c = after_put} {n = 0}
      (next here (starts_put client bucket_b key_k last_two) refl)

deliver_lem_example :
    (box 1 (deliver 1 (broken net_closed) client).0 ≡ (
      if (deliver 1 (broken net_closed) client).1
      then ite (ℕ_discrete 1 1) (some (broken net_closed)) (box 1 client)
      else box 1 client))
    × (waiting_for 1 (deliver 1 (broken net_closed) client).0
        ≡ ite (ℕ_discrete 1 1) none (waiting_for 1 client))
    × ((deliver 1 (broken net_closed) client).1
        ≡ (elim (waiting_for 1 client) [ none ↦ false | some u ↦ true ]))
deliver_lem_example = deliver_lem 1 (broken net_closed) client 1

abbrev two_meta : Message
two_meta = record (blank op_get_meta) { size = pos 2; data_offset = some (pos 1) }

abbrev two_arrive : Borrowed
two_arrive = record { payload = 8 ∷ 9 ∷ []; shared_offset = pos 1 }

two_accepted : check_meta 3 (pos 2) two_meta two_arrive ≡ meta_good (pos 1)
unfolding check_meta add64
two_accepted = refl

check_meta-accepts_example :
    (pos 0 ≤ℤ pos 1)
    × (two_meta.size ≡ pos (length two_arrive.payload))
    × (two_meta.size ≤ℤ pos 2)
    × (pos 1 ≡ two_arrive.shared_offset)
    × (pos_part (pos 1) + length two_arrive.payload ≤ 3)
check_meta-accepts_example =
    check_meta-accepts 3 (pos 2) two_meta two_arrive (pos 1) two_accepted (omega arith)

validate_ref-accepts_example : (validate_ref 3 last_two ≡ none) ↔ (
    (pos 0 ≤ℤ last_two.offset)
    × (pos 0 ≤ℤ last_two.size)
    × (pos_part last_two.offset + pos_part last_two.size ≤ 3))
validate_ref-accepts_example =
    validate_ref-accepts 3 last_two (omega arith, omega arith) (omega arith, omega arith)
      (omega arith)

compute_safe_credits-bounds_example :
    (pos 1 ≤ℤ compute_safe_credits (pos 10000000) (pos 1000) (pos 8))
    × (compute_safe_credits (pos 10000000) (pos 1000) (pos 8)
        ≤ℤ or_else (pos 8) default_max_credits)
    × ((compute_safe_credits (pos 10000000) (pos 1000) (pos 8) ≡ pos 1)
        ⊎ (pos_part (compute_safe_credits (pos 10000000) (pos 1000) (pos 8))
              * pos_part (or_else (pos 1000) (pos (64 * 1024)))
            ≤ 10000000))
compute_safe_credits-bounds_example = compute_safe_credits-bounds 10000000 (pos 1000) (pos 8)

valid : validate_ref 3 last_two ≡ none
unfolding validate_ref end add64
valid = refl

named : trim_space bucket_b ≢ []
unfolding trim_space
named = λ e. ground arith

keyed : trim_space key_k ≢ []
unfolding trim_space
keyed = λ e. ground arith

put_message-accepted_example :
    (check_put (pos 0) (put_message bucket_b key_k last_two 1)
      ≡ put_accepted (trim_space bucket_b) (pos 2) (pos 1))
    × (check_payload
          (pos 2)
          (pos 1)
          (record { payload = slice abc last_two; shared_offset = pos 1 })
        ≡ done)
put_message-accepted_example =
    put_message-accepted (pos 0) abc bucket_b key_k last_two 1 (omega arith, omega arith)
      (omega arith, omega arith) (omega arith) valid named keyed (λ e. omega (arith, e))
      (inl (omega arith))
