-- ===== src/VerbsConn/Slots.antt =====
-- pkg/rdma/verbs_linux_cgo.go: no receive slot is lost, and none is posted twice
use rdma_demo.Base.{
  ℕ, ◌+◌, ◌-◌, ◌≤◌, ◌<◌, ◌≡◌, ◌∙◌, ◌⊎◌, refl, Bool, true, Option, none, some, List, [], ◌∷◌, ◌++◌,
  length, arith, ◌==◌, if◌then◌else◌, Option-cases, inl, inr,
}
use rdma_demo.VerbsConn.Device.{
  Buffer, Device, Completion, nothing, broken, bad_status, completed, code, eio, take_slot,
  release_last_recv_slot, take_completion, recv_frame, repost_recv,
}

abbrev pub count_slot : ℕ → List ℕ → ℕ
count_slot idx [] = 0
count_slot idx (p ∷ ps) = (if p == idx then 1 else 0) + count_slot idx ps

abbrev pub last_slots : Option ℕ → List ℕ
last_slots none = []
last_slots (some idx) = idx ∷ []

-- How often a slot is posted or is the last one that was received into.
abbrev pub uses : ℕ → Device → ℕ
uses idx d = count_slot idx d.posted + count_slot idx (last_slots d.last_notify_slot)

-- Every slot of the connection stands once, and the sizes are these.
pub record IsFull (depth cap : ℕ) (d : Device) : Type 0 where
  pub depth_is : d.notify_depth ≡ depth
  pub cap_is : d.frame_cap ≡ cap
  pub once : (idx : ℕ) → idx < depth → uses idx d ≡ 1

-- What the hardware may complete with success: a receive into one of the slots, within its buffer.
abbrev pub Completes : ℕ → ℕ → Completion → Type 0
Completes depth cap nothing = Unit
Completes depth cap (broken rc) = Unit
Completes depth cap (bad_status wr) = Unit
Completes depth cap (completed is_recv wr buf) =
    (is_recv ≡ true) × (0 < wr) × (wr ≤ depth) × (length buf.bytes ≤ cap)

count_slot-append :
    (idx : ℕ) (l m : List ℕ) → count_slot idx (l ++ m) ≡ count_slot idx l + count_slot idx m
count_slot-append idx [] m = omega arith
count_slot-append idx (p ∷ l) m = omega (arith, count_slot-append idx l m)

count_slot-take_slot :
    (idx i : ℕ) (l : List ℕ)
    → 0 < count_slot i l
    → count_slot idx (take_slot i l) + count_slot idx (i ∷ []) ≡ count_slot idx l
count_slot-take_slot idx i [] h = absurd (omega arith)
count_slot-take_slot idx i (p ∷ l) h = ground (arith, count_slot-take_slot idx i l)

module _ (posts : ℕ → ℕ) (depth cap : ℕ) where
  -- Giving the last slot back keeps every use, and the sizes.
  release-uses :
      (d : Device)
      → let d' = (release_last_recv_slot posts d).0 in
        (d'.notify_depth ≡ d.notify_depth)
        × (d'.frame_cap ≡ d.frame_cap)
        × ((idx : ℕ) → uses idx d' ≡ uses idx d)
  unfolding release_last_recv_slot
  release-uses d = (
    ground arith,
    ground arith,
    λ idx. elim (Option-cases d.last_notify_slot) [
      | inl n ↦ ground arith
      | inr (i, e) ↦ ground (arith, count_slot-append idx d.posted (i ∷ []))
    ],
  )

  -- On success no slot is the last one.
  release-last :
      (d : Device)
      → (release_last_recv_slot posts d).1 ≡ 0
      → (release_last_recv_slot posts d).0.last_notify_slot ≡ none
  unfolding release_last_recv_slot
  release-last d h = ground arith

  release-IsFull :
      (d : Device) → IsFull depth cap d → IsFull depth cap (release_last_recv_slot posts d).0
  release-IsFull d f =
      let (size, frame, same) = release-uses d in
      record {
        depth_is = size ∙ f.depth_is;
        cap_is = frame ∙ f.cap_is;
        once = λ idx h. same idx ∙ f.once idx h;
      }

  -- With no last slot, a completion takes a slot that is posted.
  completed-IsFull :
      (is_recv : Bool) (wr : ℕ) (buf : Buffer) (d : Device)
      → IsFull depth cap d
      → Completes depth cap (completed is_recv wr buf)
      → d.last_notify_slot ≡ none
      → IsFull depth cap (take_completion posts (completed is_recv wr buf) d).0
  unfolding take_completion
  completed-IsFull is_recv wr buf d f (r, low, high, fits) n =
      let here : uses (wr - 1) d ≡ 1 = f.once (wr - 1) (omega arith) in
      record {
        depth_is = ground (arith, f.depth_is);
        cap_is = ground (arith, f.cap_is);
        once = λ idx h. ground (arith, f.once idx h, count_slot-take_slot idx (wr - 1) d.posted);
      }

  -- Only a completion with a bad status loses its slot, and it is an error.
  take_completion-IsFull :
      (c : Completion) (d : Device)
      → IsFull depth cap d
      → Completes depth cap c
      → d.last_notify_slot ≡ none
      → IsFull depth cap (take_completion posts c d).0 ⊎ ((take_completion posts c d).1 ≡ code eio)
  unfolding take_completion
  take_completion-IsFull nothing d f w n = inl f
  take_completion-IsFull (broken rc) d f w n = inl f
  take_completion-IsFull (bad_status wr) d f w n = inr refl
  take_completion-IsFull (completed is_recv wr buf) d f w n =
      inl (completed-IsFull is_recv wr buf d f w n)

  pub recv_frame-IsFull :
      (c : Completion) (d : Device)
      → IsFull depth cap d
      → Completes depth cap c
      → IsFull depth cap (recv_frame posts c d).0 ⊎ ((recv_frame posts c d).1 ≡ code eio)
  unfolding recv_frame
  recv_frame-IsFull c d f w =
      let released = release_last_recv_slot posts d in
      ground (arith, release-IsFull d f, take_completion-IsFull c released.0, release-last d)

  pub repost_recv-IsFull :
      (d : Device) → IsFull depth cap d → IsFull depth cap (repost_recv posts d).0
  unfolding repost_recv
  repost_recv-IsFull d f = ground (arith, release-IsFull d f)

  -- A successful repost leaves no last slot.
  pub repost_recv-last :
      (d : Device) → (repost_recv posts d).1 ≡ 0 → (repost_recv posts d).0.last_notify_slot ≡ none
  unfolding repost_recv
  repost_recv-last d h = ground (arith, release-last d)
