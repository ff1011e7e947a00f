-- ===== src/RdmaClient/Results.antt =====
-- pkg/rdma/client/client.go: what a call does with the message that waitResult returns, Release and
-- Close
use rdma_demo.Base.{
  ℕ, ◌+◌, ◌%◌, Bool, true, Option, none, some, [], ◌∷◌, length, if◌then◌else◌, ◌||◌, not,
  ℕ_discrete, ◌==◌,
}
use rdma_demo.Base.Int.{ℤ, pos, ltb_ℤ, eqb_ℤ, add64, full_range}
use rdma_demo.Base.Text.{is_empty}
use rdma_demo.Base.Map.{Map, lookup, insert, erase}
use rdma_demo.ZcopyProto.{Message, hello_resp, resp_ok, resp_err, get_meta, op_kind}
use rdma_demo.Transport.{Borrowed}
use rdma_demo.RdmaClient.Config.{BufferRef}
use rdma_demo.RdmaClient.State.{
  send_ack, Client, ClientError, remote_error, unexpected_op, unexpected_hello, hello_failed,
  invalid_get_size, payload_size_mismatch, invalid_data_offset, not_honored, missing_data_offset,
  give_back,
}

-- What hello does with the response; `none` is no error.
unfoldable pub finish_hello : Message → Option ClientError
finish_hello msg = elim (op_kind msg.op) [
  | hello_resp ↦ if is_empty msg.error then none else some (hello_failed msg.error)
  | _ ↦ some (unexpected_hello msg.op)
]

-- `zcopy: remote error` or `zcopy: ` and the text
unfoldable pub finish_ensure_bucket : Message → Option ClientError
finish_ensure_bucket msg = elim (op_kind msg.op) [
  | resp_ok ↦ none
  | resp_err ↦ some (remote_error msg.error)
  | _ ↦ some (unexpected_op msg.op)
]

unfoldable pub finish_put_zero_copy : Message → Option ClientError
finish_put_zero_copy msg = elim (op_kind msg.op) [
  | resp_ok ↦ none
  | resp_err ↦ some (remote_error msg.error)
  | _ ↦ some (unexpected_op msg.op)
]

-- The checks of GetZeroCopy on a get_meta and its payload: the offset of the reference, or an error.
pub data MetaCheck : Type 0 where
  meta_bad : ClientError → MetaCheck
  meta_good : ℤ → MetaCheck

unfoldable pub check_meta : ℕ → ℤ → Message → Borrowed → MetaCheck
check_meta region max_size msg b =
    if ltb_ℤ msg.size (pos 0) || ltb_ℤ max_size msg.size
    then meta_bad (invalid_get_size msg.size max_size)
    else if not (eqb_ℤ (pos (length b.payload)) msg.size)
    then meta_bad (payload_size_mismatch (pos (length b.payload)) msg.size)
    else elim msg.data_offset [
      | none ↦ meta_bad missing_data_offset
      | some expected ↦
          if ltb_ℤ expected (pos 0) || ltb_ℤ (pos region) (add64 expected msg.size)
          then meta_bad (invalid_data_offset expected msg.size)
          else if not (eqb_ℤ b.shared_offset expected)
          then meta_bad (not_honored expected b.shared_offset)
          else meta_good expected
    ]

-- registerRelease: the function of a token releases the payload and acknowledges it.
unfoldable pub register_release : Borrowed → Client → Client × ℕ
register_release b c =
    let token = (c.next_token + 1) % full_range in
    (record c { next_token = token; releases = insert ℕ_discrete token b c.releases }, token)

-- `nil_payload` is a get_meta without a borrowed payload, which recvLoop does not deliver:
-- the source would dereference nil.
pub data GetResult : Type 0 where
  fetched : BufferRef → GetResult
  get_failed : ClientError → GetResult
  nil_payload : GetResult

module _ (delivers : ℕ → Bool) where
  unfoldable pub finish_meta : MetaCheck → ℤ → Borrowed → Client → Client × GetResult
  unfolding register_release give_back
  finish_meta (meta_bad e) size b c = (give_back delivers c, get_failed e)
  finish_meta (meta_good offset) size b c =
      let (c', token) = register_release b c in
      (c', fetched (record { offset = offset; size = size; token = token }))

  unfoldable pub finish_get_meta : ℤ → Message → Option Borrowed → Client → Client × GetResult
  unfolding finish_meta check_meta send_ack
  finish_get_meta max_size msg none c =
      if ltb_ℤ msg.size (pos 0) || ltb_ℤ max_size msg.size
      then ((send_ack delivers c).0, get_failed (invalid_get_size msg.size max_size))
      else (c, nil_payload)
  finish_get_meta max_size msg (some b) c =
      finish_meta (check_meta (length c.shared_memory) max_size msg b) msg.size b c

  unfoldable pub finish_get_zero_copy : ℤ → Message → Option Borrowed → Client → Client × GetResult
  unfolding finish_get_meta
  finish_get_zero_copy max_size msg borrowed c = elim (op_kind msg.op) [
    | resp_err ↦ (c, get_failed (remote_error msg.error))
    | get_meta ↦ finish_get_meta max_size msg borrowed c
    | _ ↦ (c, get_failed (unexpected_op msg.op))
  ]

  unfoldable pub release_token : ℕ → Client → Client
  unfolding give_back
  release_token token c = elim (lookup ℕ_discrete token c.releases) [
    | none ↦ c
    | some b ↦ give_back delivers (record c { releases = erase ℕ_discrete token c.releases })
  ]

  -- Release
  unfoldable pub release : BufferRef → Client → Client
  unfolding release_token
  release ref c = if ref.token == 0 then c else release_token ref.token c

  -- Close, in closeOnce: every payload that is still held is given back, and then the client is closed.
  unfoldable pub give_back_all : Map ℕ Borrowed → Client → Client
  unfolding give_back
  give_back_all [] c = c
  give_back_all (b ∷ rest) c = give_back_all rest (give_back delivers c)

  unfoldable pub close : Client → Client
  unfolding give_back_all
  close c =
      if c.closed then c else record (give_back_all c.releases c) { releases = []; closed = true }
