-- ===== src/VerbsConn/Receiving.antt =====
-- pkg/rdma/verbs_linux_cgo.go: what a receive leaves of the slots, whatever it returns
use rdma_demo.Base.{
  ℕ, ◌≡◌, ◌⊎◌, Option, none, some, List, [], ◌∷◌, All, arith, Option-cases, inl, inr,
}
use rdma_demo.Base.Text.{Str}
use rdma_demo.VerbsConn.Device.{Buffer, Device, FrameView, eio}
use rdma_demo.VerbsConn.Notify.{WriteNotify, parse_write_notify_frame}
use rdma_demo.VerbsConn.Recv.{
  canceled, deadline_exceeded, ctx_error, net_closed, device_error, invalid_frame_range,
  multi_frame, Result, got, failed, MessageConn, Poll, BorrowedMessage, receive_frame, repost_frame,
  release, rw_payload, borrow_written, borrow_frame, after_frame, recv_loop,
}
use rdma_demo.VerbsConn.Slots.{
  IsFull, Completes, recv_frame-IsFull, repost_recv-IsFull, repost_recv-last,
}

-- Every slot of an open connection stands once.
abbrev pub FullDevice : ℕ → ℕ → Option Device → Type 0
FullDevice depth cap none = Unit
FullDevice depth cap (some d) = IsFull depth cap d

abbrev pub FullConn : ℕ → ℕ → MessageConn → Type 0
FullConn depth cap c = FullDevice depth cap c.cc

abbrev pub PollCompletes : ℕ → ℕ → Poll → Type 0
PollCompletes depth cap p = Completes depth cap p.completion

-- Every slot stands once, or the receive ended with the error of a completion with a bad status.
abbrev pub KeptAll : ℕ → ℕ → MessageConn × Option (Result BorrowedMessage) → Type 0
KeptAll depth cap done = FullConn depth cap done.0 ⊎ (done.1 ≡ some (failed (device_error eio)))

-- The last slot is given back.
abbrev pub NoLast : Option Device → Type 0
NoLast none = Unit
NoLast (some d) = d.last_notify_slot ≡ none

module _ (posts : ℕ → ℕ) (depth cap : ℕ) where
  receive_frame-Full :
      (p : Poll) (cc : Option Device) (shared : Buffer)
      → FullDevice depth cap cc
      → PollCompletes depth cap p
      → let done = receive_frame posts p (record { cc = cc; shared_rw_memory = shared }) in
        FullConn depth cap done.0 ⊎ (done.1 ≡ failed (device_error eio))
  unfolding receive_frame
  receive_frame-Full p none shared f w = ground arith
  receive_frame-Full p (some d) shared f w =
      ground (arith, recv_frame-IsFull posts depth cap p.completion d f w)

  repost_frame-Full :
      (cc : Option Device) (shared : Buffer)
      → FullDevice depth cap cc
      → FullConn depth cap (repost_frame posts (record { cc = cc; shared_rw_memory = shared })).0
  unfolding repost_frame
  repost_frame-Full none shared f = tt
  repost_frame-Full (some d) shared f = repost_recv-IsFull posts depth cap d f

  pub repost_frame-last :
      (cc : Option Device) (shared : Buffer)
      → (repost_frame posts (record { cc = cc; shared_rw_memory = shared })).1 ≡ none
      → NoLast (repost_frame posts (record { cc = cc; shared_rw_memory = shared })).0.cc
  unfolding repost_frame
  repost_frame-last none shared h = tt
  repost_frame-last (some d) shared h = ground (arith, repost_recv-last posts depth cap d)

  pub release-Full :
      (m : BorrowedMessage) (c : MessageConn)
      → FullConn depth cap c
      → FullConn depth cap (release posts m c).0
  unfolding release
  release-Full m c f = ground (arith, repost_frame-Full c.cc c.shared_rw_memory f)

  module _ (memory : ℕ → ℕ → Str) where
    borrow_written-Full :
        (n : WriteNotify) (r : Result Buffer) (c : MessageConn)
        → FullConn depth cap c
        → FullConn depth cap (borrow_written posts memory n r c).0
    unfolding borrow_written
    borrow_written-Full n (failed e) c f = f
    borrow_written-Full n (got b) c f = repost_frame-Full c.cc c.shared_rw_memory f

    borrow_frame-Full :
        (v : FrameView) (c : MessageConn)
        → FullConn depth cap c
        → FullConn depth cap (borrow_frame posts memory v c).0
    unfolding borrow_frame
    borrow_frame-Full v c f = elim (Option-cases (parse_write_notify_frame v.payload.bytes)) [
      | inl n ↦ ground arith
      | inr (n, e) ↦ ground (arith, borrow_written-Full n (rw_payload posts memory n c) c f)
    ]

    after_frame-Full :
        (p : Poll) (r : Result FrameView) (c : MessageConn)
        (again : MessageConn × Option (Result BorrowedMessage))
        → FullConn depth cap c
        → KeptAll depth cap again
        → KeptAll depth cap (after_frame posts memory p r c again)
    unfolding after_frame
    after_frame-Full p (got v) c again f g = inl (borrow_frame-Full v c f)
    after_frame-Full p (failed (ctx_error deadline_exceeded)) c again f g = ground arith
    after_frame-Full p (failed (ctx_error canceled)) c again f g = inl f
    after_frame-Full p (failed net_closed) c again f g = inl f
    after_frame-Full p (failed (device_error rc)) c again f g = inl f
    after_frame-Full p (failed (invalid_frame_range a b n)) c again f g = inl f
    after_frame-Full p (failed (multi_frame a b n)) c again f g = inl f

    -- The loop ends with an error of the device.
    after_frame_failure :
        (p : Poll) (r : Result FrameView) (c : MessageConn)
        (again : MessageConn × Option (Result BorrowedMessage))
        → r ≡ failed (device_error eio)
        → (after_frame posts memory p r c again).1 ≡ some (failed (device_error eio))
    unfolding after_frame
    after_frame_failure p r c again e = rw (e, after_frame)

    pub recv_loop-Full :
        (polls : List Poll) (c : MessageConn)
        → FullConn depth cap c
        → All (PollCompletes depth cap) polls
        → KeptAll depth cap (recv_loop posts memory polls c)
    unfolding recv_loop
    recv_loop-Full [] c f w = inl f
    recv_loop-Full (p ∷ ps) c f (w, ws) =
        let (c', r) = receive_frame posts p c in
        let again = recv_loop posts memory ps c' in
        elim (Option-cases p.at_loop) [
          | inr (e, h) ↦ rw (h, recv_loop) (inl f)
          | inl h ↦
              rw (h, recv_loop)
                (elim (receive_frame-Full p c.cc c.shared_rw_memory f w) [
                  | inl f' ↦ after_frame-Full p r c' again f' (recv_loop-Full ps c' f' ws)
                  | inr e ↦ inr (after_frame_failure p r c' again e)
                ])
        ]
