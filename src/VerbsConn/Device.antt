-- ===== src/VerbsConn/Device.antt =====
-- pkg/rdma/verbs_linux_cgo.go, C part: the receive slots of a connection and the region that the peer
-- writes to. A buffer is its address and its bytes. Slots are numbered from 0, and `posted` holds
-- those that the hardware may fill; `posts n` is 0 if the n-th call of rdma_post_recv succeeds, else errno, or EIO
-- if that is 0.
-- A connection has its slots from the start, and the output pointers are not NULL.
use rdma_demo.Base.{
  ℕ, suc, ◌+◌, ◌-◌, ◌*◌, Bool, not, ◌||◌, Option, none, some, List, [], ◌∷◌, ◌++◌, length, ltb, leb,
  ◌==◌, if◌then◌else◌,
}
use rdma_demo.Base.Text.{Str}

pub record Buffer : Type 0 where
  pub base : ℕ
  pub bytes : Str

pub record Device : Type 0 where
  pub open_ : Bool
  pub frame_cap : ℕ
  pub notify_depth : ℕ
  pub posted : List ℕ
  pub last_notify_slot : Option ℕ
  pub post_attempts : ℕ
  pub rw_ready : Bool
  pub rw_recv_base : ℕ
  pub rw_recv_cap : ℕ
  pub rw_recv_slots : ℕ

-- errno
abbrev pub eio : ℕ
eio = 5

abbrev pub ebadf : ℕ
ebadf = 9

abbrev pub eagain : ℕ
eagain = 11

abbrev pub einval : ℕ
einval = 22

abbrev pub eproto : ℕ
eproto = 71

abbrev pub emsgsize : ℕ
emsgsize = 90

abbrev pub enotsup : ℕ
enotsup = 95

-- What go_rdma_wait_recv_completion finds: nothing in time, a failure to poll, a completion whose
-- status is not a success, with its wr_id, or one with its opcode (a receive or not), its wr_id and
-- what lies in the slot's buffer.
pub data Completion : Type 0 where
  nothing : Completion
  broken bad_status : ℕ → Completion
  completed : Bool → ℕ → Buffer → Completion

-- A return code, or what the output parameters hold on success.
pub data Returned (A : Type 0) : Type 0 where
  code : ℕ → Returned A
  value : A → Returned A

pub record FrameView : Type 0 where
  pub payload : Buffer
  pub total : ℕ
  pub offset : ℕ

-- The completion takes its slot from those that are posted.
abbrev pub take_slot : ℕ → List ℕ → List ℕ
take_slot idx [] = []
take_slot idx (p ∷ ps) = if p == idx then ps else p ∷ take_slot idx ps

module _ (posts : ℕ → ℕ) where
  -- go_rdma_post_notify_recv_slot
  unfoldable pub post_notify_recv_slot : ℕ → Device → Device × ℕ
  post_notify_recv_slot idx d =
      if not d.open_
      then (d, ebadf)
      else if leb d.notify_depth idx
      then (d, einval)
      else if posts d.post_attempts == 0
      then (record d { post_attempts = suc d.post_attempts; posted = d.posted ++ idx ∷ [] }, 0)
      else (record d { post_attempts = suc d.post_attempts }, posts d.post_attempts)

  unfoldable pub release_last_recv_slot : Device → Device × ℕ
  unfolding post_notify_recv_slot
  release_last_recv_slot d = if not d.open_ then (d, ebadf) else elim d.last_notify_slot [
    | none ↦ (d, 0)
    | some idx ↦
        let (d', rc) = post_notify_recv_slot idx d in
        if rc == 0 then (record d' { last_notify_slot = none }, 0) else (d', rc)
  ]

  -- go_rdma_recv_frame once the last slot is released
  unfoldable pub take_completion : Completion → Device → Device × Returned FrameView
  take_completion nothing d = (d, code eagain)
  take_completion (broken rc) d = (d, code rc)
  take_completion (bad_status wr) d = (record d { posted = take_slot (wr - 1) d.posted }, code eio)
  take_completion (completed is_recv wr slot_buf) d =
      let idx = wr - 1 in
      let size = length slot_buf.bytes in
      let d' : Device = record d { posted = take_slot idx d.posted } in
      if not is_recv
      then (d', code eproto)
      else if wr == 0 || ltb d.notify_depth wr
      then (d', code eio)
      else if ltb d.frame_cap size
      then (d', code eproto)
      else (
        record d' { last_notify_slot = some idx },
        value (record { payload = slot_buf; total = size; offset = 0 }),
      )

  unfoldable pub recv_frame : Completion → Device → Device × Returned FrameView
  unfolding release_last_recv_slot take_completion
  recv_frame c d =
      let (d', rc) = release_last_recv_slot d in
      if not d.open_
      then (d, code ebadf)
      else if rc == 0
      then take_completion c d'
      else (d', code rc)

  unfoldable pub repost_recv : Device → Device × ℕ
  unfolding release_last_recv_slot
  repost_recv d =
      if not d.open_
      then (d, ebadf)
      else elim d.last_notify_slot [ none ↦ (d, einval) | some idx ↦ release_last_recv_slot d ]

-- `memory a n` holds the n bytes at an address.
module _ (memory : ℕ → ℕ → Str) where
  unfoldable pub get_rw_recv_payload : ℕ → ℕ → Device → Returned Buffer
  get_rw_recv_payload slot payload_len d =
      if not d.open_
      then code ebadf
      else if not d.rw_ready || d.rw_recv_cap == 0
      then code enotsup
      else if d.rw_recv_slots == 0 || leb d.rw_recv_slots slot
      then code einval
      else if ltb d.rw_recv_cap payload_len
      then code emsgsize
      else let base = d.rw_recv_base + slot * d.rw_recv_cap in
        value (record { base = base; bytes = memory base payload_len })

  unfoldable pub get_rw_recv_payload_at : ℕ → ℕ → Device → Returned Buffer
  get_rw_recv_payload_at remote_offset payload_len d =
      if not d.open_
      then code ebadf
      else if not d.rw_ready || d.rw_recv_cap == 0 || d.rw_recv_slots == 0
      then code enotsup
      else if ltb (d.rw_recv_cap * d.rw_recv_slots) (remote_offset + payload_len)
      then code emsgsize
      else let base = d.rw_recv_base + remote_offset in
        value (record { base = base; bytes = memory base payload_len })
