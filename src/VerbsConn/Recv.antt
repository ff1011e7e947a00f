-- ===== src/VerbsConn/Recv.antt =====
-- pkg/rdma/verbs_linux_cgo.go: RecvFrame, RepostFrame, RecvBorrowedMessage, RecvMessage, and the
-- Release of pkg/rdma/conn.go. A poll is one round of the receive loop: what ctx.Err returns at each place
-- that asks, and what the hardware completes. `memory` is the region that the peer writes to. Both
-- constructors of a connection set `ready`. Numbers that come from a uint32 are not tested for a sign.
use rdma_demo.Base.{
  ℕ, ◌+◌, Bool, true, false, not, ◌||◌, Option, none, some, List, [], ◌∷◌, length, ltb, ◌==◌,
  if◌then◌else◌,
}
use rdma_demo.Base.Int.{ℤ, pos}
use rdma_demo.Base.Text.{Str}
use rdma_demo.VerbsConn.Device.{
  Buffer, Device, eagain, Completion, Returned, code, value, FrameView, recv_frame, repost_recv,
  get_rw_recv_payload, get_rw_recv_payload_at,
}
use rdma_demo.VerbsConn.Notify.{WriteNotify, parse_write_notify_frame, shared_memory_offset}

pub data CtxError : Type 0 where
  canceled deadline_exceeded : CtxError

pub data RecvError : Type 0 where
  ctx_error : CtxError → RecvError
  net_closed : RecvError
  device_error : ℕ → RecvError
  invalid_frame_range multi_frame : ℕ → ℕ → ℕ → RecvError

pub data Result (A : Type 0) : Type 0 where
  got : A → Result A
  failed : RecvError → Result A

-- `cc` is `none` once the connection is closed.
pub record MessageConn : Type 0 where
  pub cc : Option Device
  pub shared_rw_memory : Buffer

pub record Poll : Type 0 where
  pub at_loop : Option CtxError
  pub at_frame : Option CtxError
  pub at_timeout : Option CtxError
  pub completion : Completion
  pub after_wait : Option CtxError
  pub after_poll : Option CtxError

pub record BorrowedMessage : Type 0 where
  pub payload : Buffer
  pub shared_offset : ℤ
  pub has_release : Bool

-- context.DeadlineExceeded, or the context's own error if it has one
abbrev pub or_deadline : Option CtxError → RecvError
or_deadline none = ctx_error deadline_exceeded
or_deadline (some e) = ctx_error e

-- The range check of RecvFrame.
unfoldable pub check_frame : FrameView → Result FrameView
check_frame f =
    let n = length f.payload.bytes in
    if ltb f.total (f.offset + n) then failed (invalid_frame_range f.offset n f.total) else got f

module _ (posts : ℕ → ℕ) where
  unfoldable pub receive_frame : Poll → MessageConn → MessageConn × Result FrameView
  unfolding check_frame
  receive_frame p c = elim p.at_frame [
    | some e ↦ (c, failed (ctx_error e))
    | none ↦ elim c.cc [
      | none ↦ (c, failed net_closed)
      | some d ↦ elim p.at_timeout [
        | some e ↦ (c, failed (ctx_error e))
        | none ↦
            let (d', r) = recv_frame posts p.completion d in
            (
              record c { cc = some d' },
              elim r [
                | code rc ↦
                    if rc == eagain
                    then failed (or_deadline p.after_wait)
                    else failed (device_error rc)
                | value f ↦ check_frame f
              ],
            )
      ]
    ]
  ]

  unfoldable pub repost_frame : MessageConn → MessageConn × Option RecvError
  repost_frame c = elim c.cc [
    | none ↦ (c, some net_closed)
    | some d ↦
        let (d', rc) = repost_recv posts d in
        (record c { cc = some d' }, if rc == 0 then none else some (device_error rc))
  ]

  -- BorrowedMessage.Release, which gives its slot back once
  unfoldable pub release :
      BorrowedMessage → MessageConn → MessageConn × BorrowedMessage × Option RecvError
  unfolding repost_frame
  release m c =
      let (c', e) = repost_frame c in
      if m.has_release then (c', record m { has_release = false }, e) else (c, m, none)

  module _ (memory : ℕ → ℕ → Str) where
    abbrev pub from_device : Returned Buffer → Result Buffer
    from_device (code rc) = failed (device_error rc)
    from_device (value b) = got b

    -- getRWRecvPayloadAt or getRWRecvPayload
    unfoldable pub rw_payload : WriteNotify → MessageConn → Result Buffer
    rw_payload n c = if n.length_ == 0 then got (record { base = 0; bytes = [] }) else elim c.cc [
      | none ↦ failed net_closed
      | some d ↦ from_device (
          if n.at_
          then get_rw_recv_payload_at memory n.token n.length_ d
          else get_rw_recv_payload memory n.token n.length_ d)
    ]

    -- A payload that the peer wrote: the frame that announced it is given back at once.
    unfoldable pub borrow_written :
        WriteNotify → Result Buffer → MessageConn → MessageConn × Result BorrowedMessage
    unfolding repost_frame
    borrow_written n (failed e) c = (c, failed e)
    borrow_written n (got b) c =
        let (c', e) = repost_frame c in
        (
          c',
          elim e [
            | some x ↦ failed x
            | none ↦ got (record {
              payload = b;
              shared_offset =
                  if n.at_ then pos n.token else shared_memory_offset c.shared_rw_memory b;
              has_release = false;
            })
          ],
        )

    -- What RecvBorrowedMessage does with a frame.
    unfoldable pub borrow_frame : FrameView → MessageConn → MessageConn × Result BorrowedMessage
    unfolding rw_payload
    borrow_frame f c =
        let n = length f.payload.bytes in
        if not (f.total == n) || not (f.offset == 0)
        then (c, failed (multi_frame f.total n f.offset))
        else elim (parse_write_notify_frame f.payload.bytes) [
          | some notify ↦ borrow_written notify (rw_payload notify c) c
          | none ↦ (
            c,
            got (record {
              payload = f.payload;
              shared_offset = shared_memory_offset c.shared_rw_memory f.payload;
              has_release = true;
            }),
          )
        ]

    -- A round after RecvFrame; `again` is the rest of the loop.
    unfoldable pub after_frame :
        Poll
        → Result FrameView
        → MessageConn
        → MessageConn × Option (Result BorrowedMessage)
        → MessageConn × Option (Result BorrowedMessage)
    unfolding borrow_frame
    after_frame p (failed (ctx_error deadline_exceeded)) c again = elim p.after_poll [
      | some e ↦ (c, some (failed (ctx_error e)))
      | none ↦ again
    ]
    after_frame p (failed e) c again = (c, some (failed e))
    after_frame p (got f) c again = let (c', m) = borrow_frame f c in (c', some m)

    -- The loop; `none` means that it has not returned after these polls.
    unfoldable pub recv_loop :
        List Poll → MessageConn → MessageConn × Option (Result BorrowedMessage)
    recv_loop [] c = (c, none)
    recv_loop (p ∷ ps) c =
        let (c', r) = receive_frame p c in
        let again = recv_loop ps c' in
        let round = after_frame p r c' again in
        elim p.at_loop [ some e ↦ (c, some (failed (ctx_error e))) | none ↦ round ]

    unfoldable pub recv_borrowed_message :
        Option CtxError → List Poll → MessageConn → MessageConn × Option (Result BorrowedMessage)
    unfolding recv_loop
    recv_borrowed_message (some e) polls c = (c, some (failed (ctx_error e)))
    recv_borrowed_message none polls c = recv_loop polls c

    -- RecvMessage with what RecvBorrowedMessage returned: a copy of the payload.
    unfoldable pub copy_message :
        MessageConn × Option (Result BorrowedMessage) → MessageConn × Option (Result Str)
    unfolding release
    copy_message (c, none) = (c, none)
    copy_message (c, some (failed e)) = (c, some (failed e))
    copy_message (c, some (got m)) =
        let (c', m', e) = release m c in
        (c', elim e [ some x ↦ some (failed x) | none ↦ some (got m.payload.bytes) ])

    unfoldable pub recv_message :
        Option CtxError → List Poll → MessageConn → MessageConn × Option (Result Str)
    unfolding copy_message
    recv_message ctx polls c = copy_message (recv_borrowed_message ctx polls c)

-- Close, once: the device is freed.
unfoldable pub close : MessageConn → MessageConn × Option RecvError
close c = elim c.cc [ none ↦ (c, some net_closed) | some d ↦ (record c { cc = none }, none) ]
