-- ===== src/EndToEnd.antt =====
-- pkg/rdma/client/client.go and internal/s3rdmaserver/zcopy/service.go: what the client sends, as the
-- server reads it
use rdma_demo.Base.{ℕ, ◌<◌, ◌≡◌, ◌≢◌, refl, none, [], length, ◌⊎◌, arith}
use rdma_demo.Base.Int.{ℤ, pos, pos_part, ◌≤ℤ◌, half_range, Fits64}
use rdma_demo.Base.Text.{Str, trim_space}
use rdma_demo.ZcopyServer.Conn.{done, check_payload}
use rdma_demo.ZcopyServer.Handlers.{put_accepted, check_put}
use rdma_demo.ZcopyServer.Requests.{check_put-accepted}
use rdma_demo.RdmaClient.Config.{BufferRef, validate_ref, validate_ref-accepts}
use rdma_demo.RdmaClient.Calls.{put_message, slice}
use rdma_demo.RdmaClient.Payloads.{slice_lem}

check_payload_lem :
    (o : ℤ) (p : Str) (size : ℤ)
    → pos 0 ≤ℤ size
    → length p ≡ pos_part size
    → check_payload size o (record { payload = p; shared_offset = o }) ≡ done
unfolding check_payload
check_payload_lem o p size nonneg h = ground arith

-- A PUT that the client sends is one that the server accepts, and its payload passes the server's
-- checks of size and offset: for a reference that validateRef accepts, a bucket and a key that are not
-- blank, a request id other than 0, and a size within the server's limit, if there is one. The region
-- is below 2^63 bytes and the payload arrives at the offset it was sent to.
pub put_message-accepted :
    (limit : ℤ) (memory bucket key : Str) (ref : BufferRef) (id : ℕ)
    → Fits64 ref.offset
    → Fits64 ref.size
    → length memory < half_range
    → validate_ref (length memory) ref ≡ none
    → trim_space bucket ≢ []
    → trim_space key ≢ []
    → id ≢ 0
    → (limit ≤ℤ pos 0) ⊎ (ref.size ≤ℤ limit)
    → (check_put limit (put_message bucket key ref id)
        ≡ put_accepted (trim_space bucket) ref.size ref.offset)
      × (check_payload ref.size ref.offset
            (record { payload = slice memory ref; shared_offset = ref.offset })
          ≡ done)
put_message-accepted limit memory bucket key ref id fo fs small valid named keyed given fits =
    let (nonneg_offset, nonneg, inside) =
      (validate_ref-accepts (length memory) ref fo fs small).0 valid in
    (
      (check_put-accepted limit (put_message bucket key ref id) (trim_space bucket) ref.size
            ref.offset).1
          (given, named, keyed, nonneg, fits, refl, refl, refl),
      check_payload_lem ref.offset (slice memory ref) ref.size nonneg (slice_lem memory ref inside),
    )
