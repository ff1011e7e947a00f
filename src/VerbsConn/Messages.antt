-- ===== src/VerbsConn/Messages.antt =====
-- pkg/rdma/verbs_linux_cgo.go: RecvMessage gives every receive slot back
use rdma_demo.Base.{
  ℕ, not, ◌||◌, ◌==◌, ◌<◌, ◌≡◌, ◌⊎◌, false, Option, none, some, List, [], ◌∷◌, All, length, arith,
  if-elim, Option-cases, inl, inr,
}
use rdma_demo.Base.Text.{Str}
use rdma_demo.VerbsConn.Device.{Buffer, Device, FrameView, eio}
use rdma_demo.VerbsConn.Notify.{WriteNotify, parse_write_notify_frame}
use rdma_demo.VerbsConn.Recv.{
  CtxError, canceled, deadline_exceeded, RecvError, ctx_error, net_closed, device_error,
  invalid_frame_range, multi_frame, Result, got, failed, MessageConn, Poll, BorrowedMessage,
  receive_frame, repost_frame, release, rw_payload, borrow_written, borrow_frame, after_frame,
  recv_loop, recv_borrowed_message, copy_message, recv_message,
}
use rdma_demo.VerbsConn.Slots.{count_slot}
use rdma_demo.VerbsConn.Receiving.{
  FullDevice, FullConn, KeptAll, PollCompletes, NoLast, repost_frame-last, release-Full,
  recv_loop-Full,
}

-- A message that has nothing to release left no last slot.
abbrev Settled : MessageConn → Result BorrowedMessage → Type 0
Settled c (got m) = m.has_release ≡ false → NoLast c.cc
Settled c (failed e) = Unit

abbrev SettledLoop : MessageConn → Option (Result BorrowedMessage) → Type 0
SettledLoop c none = Unit
SettledLoop c (some r) = Settled c r

module _ (posts : ℕ → ℕ) (depth cap : ℕ) (memory : ℕ → ℕ → Str) where
  borrow_written-Settled :
      (n : WriteNotify) (r : Result Buffer) (c : MessageConn)
      → let done = borrow_written posts memory n r c in Settled done.0 done.1
  unfolding borrow_written
  borrow_written-Settled n (failed e) c = tt
  borrow_written-Settled n (got b) c = elim (Option-cases (repost_frame posts c).1) [
    | inl e ↦
        rw (e, borrow_written) (λ _. repost_frame-last posts depth cap c.cc c.shared_rw_memory e)
    | inr (x, e) ↦ rw (e, borrow_written) tt
  ]

  borrow_frame-Settled :
      (v : FrameView) (c : MessageConn)
      → let done = borrow_frame posts memory v c in Settled done.0 done.1
  unfolding borrow_frame
  borrow_frame-Settled v c =
      if-elim (λ (x : MessageConn × Result BorrowedMessage). Settled x.0 x.1)
        (not (v.total == length v.payload.bytes) || not (v.offset == 0)) (λ _. tt)
        (λ _. elim (Option-cases (parse_write_notify_frame v.payload.bytes)) [
          | inl n ↦ rw n (λ h. absurd (ground arith))
          | inr (n, e) ↦ rw e (borrow_written-Settled n (rw_payload posts memory n c) c)
        ])

  after_frame-Settled :
      (p : Poll) (r : Result FrameView) (c : MessageConn)
      (again : MessageConn × Option (Result BorrowedMessage))
      → SettledLoop again.0 again.1
      → let done = after_frame posts memory p r c again in SettledLoop done.0 done.1
  unfolding after_frame
  after_frame-Settled p (got v) c again g = borrow_frame-Settled v c
  after_frame-Settled p (failed (ctx_error deadline_exceeded)) c again g =
      elim (Option-cases p.after_poll) [
        | inl n ↦ rw (n, after_frame) g
        | inr (e, n) ↦ rw (n, after_frame) tt
      ]
  after_frame-Settled p (failed (ctx_error canceled)) c again g = tt
  after_frame-Settled p (failed net_closed) c again g = tt
  after_frame-Settled p (failed (device_error rc)) c again g = tt
  after_frame-Settled p (failed (invalid_frame_range a b n)) c again g = tt
  after_frame-Settled p (failed (multi_frame a b n)) c again g = tt

  recv_loop-Settled :
      (polls : List Poll) (c : MessageConn)
      → let done = recv_loop posts memory polls c in SettledLoop done.0 done.1
  unfolding recv_loop
  recv_loop-Settled [] c = tt
  recv_loop-Settled (p ∷ ps) c =
      let (c', r) = receive_frame posts p c in
      let again = recv_loop posts memory ps c' in
      elim (Option-cases p.at_loop) [
        | inl n ↦ rw (n, recv_loop) (after_frame-Settled p r c' again (recv_loop-Settled ps c'))
        | inr (e, n) ↦ rw (n, recv_loop) tt
      ]

  release-last :
      (m : BorrowedMessage) (c : MessageConn)
      → Settled c (got m)
      → (release posts m c).2 ≡ none
      → NoLast (release posts m c).0.cc
  unfolding release
  release-last m c g =
      if-elim (λ (x : MessageConn × BorrowedMessage × Option RecvError). x.2 ≡ none → NoLast x.0.cc)
        m.has_release (λ _ h. repost_frame-last posts depth cap c.cc c.shared_rw_memory h)
        (λ e h. g e)

  -- No last slot after a copy that succeeded.
  copy_message-last :
      (c : MessageConn) (r : Option (Result BorrowedMessage)) (bytes : Str)
      → SettledLoop c r
      → (copy_message posts memory (c, r)).1 ≡ some (got bytes)
      → NoLast (copy_message posts memory (c, r)).0.cc
  unfolding copy_message
  copy_message-last c none bytes g h = absurd (ground arith)
  copy_message-last c (some (failed e)) bytes g h = absurd (ground arith)
  copy_message-last c (some (got m)) bytes g h = release-last m c g (ground arith)

  recv_borrowed-Settled :
      (ctx : Option CtxError) (polls : List Poll) (c : MessageConn)
      → let done = recv_borrowed_message posts memory ctx polls c in SettledLoop done.0 done.1
  unfolding recv_borrowed_message
  recv_borrowed-Settled (some e) polls c = tt
  recv_borrowed-Settled none polls c = recv_loop-Settled polls c

  recv_borrowed-Full :
      (ctx : Option CtxError) (polls : List Poll) (c : MessageConn)
      → FullConn depth cap c
      → All (PollCompletes depth cap) polls
      → KeptAll depth cap (recv_borrowed_message posts memory ctx polls c)
  unfolding recv_borrowed_message
  recv_borrowed-Full (some e) polls c f w = inl f
  recv_borrowed-Full none polls c f w = recv_loop-Full posts depth cap memory polls c f w

  copy_message-Full :
      (c : MessageConn) (r : Option (Result BorrowedMessage))
      → FullConn depth cap c
      → FullConn depth cap (copy_message posts memory (c, r)).0
  unfolding copy_message
  copy_message-Full c none f = f
  copy_message-Full c (some (failed e)) f = f
  copy_message-Full c (some (got m)) f = release-Full posts depth cap m c f

  -- RecvMessage keeps every receive slot: if each stood once, posted or as the last one received into,
  -- and the hardware completes with success only receives into slots of the connection and within their
  -- buffers, then each stands once afterwards, or RecvMessage returned an error.
  pub recv_message-Full :
      (ctx : Option CtxError) (polls : List Poll) (c : MessageConn)
      → FullConn depth cap c
      → All (PollCompletes depth cap) polls
      → FullConn depth cap (recv_message posts memory ctx polls c).0
        ⊎ ((recv_message posts memory ctx polls c).1 ≡ some (failed (device_error eio)))
  unfolding recv_message copy_message
  recv_message-Full ctx polls c f w =
      let r = recv_borrowed_message posts memory ctx polls c in
      elim (recv_borrowed-Full ctx polls c f w) [
        | inl full ↦ inl (copy_message-Full r.0 r.1 full)
        | inr e ↦ inr (rw (e, copy_message))
      ]

  posted_once :
      (cc : Option Device) (d : Device) (idx : ℕ)
      → cc ≡ some d
      → FullDevice depth cap cc
      → NoLast cc
      → idx < depth
      → count_slot idx d.posted ≡ 1
  posted_once none d idx e f n h = absurd (ground arith)
  posted_once (some d') d idx e f n h = ground (arith, f.once idx h)

  -- When RecvMessage has returned a message every slot of the connection is posted, once, if each stood
  -- once before, posted or as the last one received into, and the hardware completes with success only
  -- receives into slots of the connection and within their buffers: also the slot of a frame that
  -- announced a write.
  pub recv_message_posted :
      (ctx : Option CtxError) (polls : List Poll) (c : MessageConn) (bytes : Str) (d : Device)
      (idx : ℕ)
      → FullConn depth cap c
      → All (PollCompletes depth cap) polls
      → (recv_message posts memory ctx polls c).1 ≡ some (got bytes)
      → (recv_message posts memory ctx polls c).0.cc ≡ some d
      → idx < depth
      → count_slot idx d.posted ≡ 1
  unfolding recv_message
  recv_message_posted ctx polls c bytes d idx f w h e low =
      let r = recv_borrowed_message posts memory ctx polls c in
      let last = copy_message-last r.0 r.1 bytes (recv_borrowed-Settled ctx polls c) h in
      elim (recv_message-Full ctx polls c f w) [
        | inl full ↦ posted_once (copy_message posts memory r).0.cc d idx e full last low
        | inr failure ↦ absurd (ground arith)
      ]
