-- ===== src/Examples/Device.antt =====
-- pkg/rdma/verbs_linux_cgo.go on small connections
use rdma_demo.Base.{
  ℕ, ◌+◌, ◌≤◌, ◌≡◌, ◌↔◌, refl, ap, true, false, Option, none, some, List, [], ◌∷◌, length, arith,
}
use rdma_demo.Base.Int.{ℤ, pos}
use rdma_demo.Base.Text.{Str}
use rdma_demo.VerbsConn.Device.{
  Buffer, Device, completed, nothing, recv_frame, release_last_recv_slot, take_completion,
  repost_recv, post_notify_recv_slot,
}
use rdma_demo.VerbsConn.Notify.{
  WriteNotify, notify_frame, parse_write_notify_frame, parse-notify_frame, shared_memory_offset,
  shared_memory_offset_lem,
}
use rdma_demo.VerbsConn.Recv.{
  Poll, MessageConn, Result, got, recv_message, copy_message, recv_borrowed_message, recv_loop,
  receive_frame, check_frame, after_frame, borrow_frame, release, repost_frame,
}
use rdma_demo.VerbsConn.Slots.{IsFull, count_slot}
use rdma_demo.VerbsConn.Messages.{recv_message_posted}
use rdma_demo.VerbsConn.Timeouts.{Context}
use rdma_demo.VerbsConn.Open.{
  Attempt, Round, verbs_open_attempt_limit, open_loop, EndsWithin, open_loop_ends,
}
use rdma_demo.VerbsConn.Send.{Sender, Call, IsSentOnce, send_message, send_message_lem}
use rdma_demo.Examples.Loaded.{abc}

abbrev notify_at : WriteNotify
notify_at = record { length_ = 300; token = 4096; at_ = true }

parse-notify_frame_example : parse_write_notify_frame (notify_frame notify_at) ≡ some notify_at
parse-notify_frame_example = parse-notify_frame notify_at (omega arith) (omega arith)

abbrev shared : Buffer
shared = record { base = 100; bytes = abc }

abbrev last_byte : Buffer
last_byte = record { base = 102; bytes = 99 ∷ [] }

shared_memory_offset_lem_example :
    (shared_memory_offset shared last_byte ≡ pos 2)
    ↔ ((last_byte.base ≡ shared.base + 2) × (2 + length last_byte.bytes ≤ length shared.bytes))
shared_memory_offset_lem_example =
    shared_memory_offset_lem shared last_byte 2 (omega arith) (omega arith) (omega arith)

abbrev always : ℕ → ℕ
always n = 0

abbrev no_memory : ℕ → ℕ → Str
no_memory a n = []

-- Two slots, both posted.
abbrev device : Device
device = record {
  open_ = true;
  frame_cap = 8;
  notify_depth = 2;
  posted = 0 ∷ 1 ∷ [];
  last_notify_slot = none;
  post_attempts = 2;
  rw_ready = false;
  rw_recv_base = 0;
  rw_recv_cap = 0;
  rw_recv_slots = 0;
}

abbrev conn : MessageConn
conn = record { cc = some device; shared_rw_memory = shared }

-- Nothing in time, then a message into the second slot.
abbrev polls : List Poll
polls =
    record {
      at_loop = none;
      at_frame = none;
      at_timeout = none;
      completion = nothing;
      after_wait = none;
      after_poll = none;
    }
    ∷ record {
      at_loop = none;
      at_frame = none;
      at_timeout = none;
      completion = completed true 2 (record { base = 500; bytes = abc });
      after_wait = none;
      after_poll = none;
    }
    ∷ []

device-IsFull : IsFull 2 8 device
device-IsFull = record { depth_is = refl; cap_is = refl; once = λ idx h. ground arith }

abbrev device_after : Device
device_after = record device { posted = 0 ∷ 1 ∷ []; post_attempts = 3 }

abbrev received : MessageConn × Option (Result Str)
received = recv_message always no_memory none polls conn

all_received : received ≡ (record conn { cc = some device_after }, some (got abc))
unfolding recv_message copy_message recv_borrowed_message recv_loop receive_frame recv_frame
    release_last_recv_slot take_completion check_frame after_frame borrow_frame
    parse_write_notify_frame release repost_frame repost_recv post_notify_recv_slot
all_received = refl

recv_message_posted_example : count_slot 1 device_after.posted ≡ 1
recv_message_posted_example =
    recv_message_posted always 2 8 no_memory none polls conn abc device_after 1 device-IsFull
      (tt, ((refl, omega arith, omega arith, omega arith), tt)) (ap (λ x. x.1) all_received)
      (ap (λ x. x.0.cc) all_received) (omega arith)

abbrev sender : Sender
sender = record { is_open = true; frame_payload_size = pos 2; inline_threshold = pos 0 }

abbrev context : Context
context = record { error = none; remain = none }

-- SEND succeeds, the RDMA write does not.
abbrev codes : Call → ℕ
codes (Call.send payload n) = 0
codes (Call.rw_send payload n) = 95
codes (Call.rw_send_at payload n o) = 0

send_message_lem_example :
    IsSentOnce codes none sender abc (send_message codes none none context sender abc)
send_message_lem_example = send_message_lem codes none none context sender abc

-- go_rdma_open gives nothing in time.
abbrev nothing_in_time : ℤ → Attempt
nothing_in_time timeout = record {
  context = record { error = none; remain = some timeout };
  done_first = none;
  result = record { rc = 11; has_conn = false };
  after_result = none;
}

abbrev round : Round
round = record {
  at_loop = none;
  remain = pos 0;
  attempt = nothing_in_time;
  remain_after = pos 0;
  woken = none;
}

abbrev nine_rounds : List Round
nine_rounds = round ∷ round ∷ round ∷ round ∷ round ∷ round ∷ round ∷ round ∷ round ∷ []

open_loop_ends_example : EndsWithin verbs_open_attempt_limit (open_loop false 0 none nine_rounds)
open_loop_ends_example = open_loop_ends nine_rounds 0 none (omega arith) (omega arith)
