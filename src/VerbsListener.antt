-- ===== src/VerbsListener.antt =====
-- pkg/rdma/verbs_linux_cgo.go: verbsListener, once newVerbsMessageListener has made it. Its accept workers
-- put connections into a channel, AcceptMessage takes them out, and Close waits for the workers.
-- Connections are numbered in the order in which go_rdma_accept returns them. A select with two ready
-- cases may take either, as `prefers_done` says.
use rdma_demo.Base.{
  ℕ, zero, suc, ◌*◌, Bool, true, false, not, ◌&&◌, Option, none, some, List, [], ◌∷◌, ◌++◌, length,
  ltb, if◌then◌else◌,
}
pub mod Workers
pub mod Conserved

-- Where an accept worker is: at the head of its loop, in go_rdma_accept, at the select with a
-- connection, or returned.
pub data Worker : Type 0 where
  looping accepting ended : Worker
  holding : ℕ → Worker

-- Close sets cl and closes done under one lock; `finished` once it has freed the C listener and closed
-- acceptOut.
pub record Listener : Type 0 where
  pub is_open : Bool
  pub finished : Bool
  pub accept_workers : ℕ
  pub workers : List Worker
  pub accept_out : List ℕ
  pub accepted : ℕ
  pub delivered : List ℕ
  pub closed_conns : List ℕ

-- What acceptOnce returns: an error, no connection, or the next one.
pub data Accepted : Type 0 where
  accept_error no_conn conn : Accepted

unfoldable pub start_accept_workers : ℕ → List Worker
start_accept_workers zero = []
start_accept_workers (suc n) = looping ∷ start_accept_workers n

-- The listener when newVerbsMessageListener returns it.
unfoldable pub new_listener : ℕ → Listener
unfolding start_accept_workers
new_listener accept_workers = record {
  is_open = true;
  finished = false;
  accept_workers = accept_workers;
  workers = start_accept_workers accept_workers;
  accept_out = [];
  accepted = 0;
  delivered = [];
  closed_conns = [];
}

-- A step of acceptWorker; `none` if it has returned, or waits at the select.
unfoldable pub accept_worker : Accepted → Bool → Worker → Listener → Option (Worker × Listener)
accept_worker a prefers_done looping l = some (if l.is_open then accepting else ended, l)
accept_worker accept_error prefers_done accepting l = some (if l.is_open then looping else ended, l)
accept_worker no_conn prefers_done accepting l = some (looping, l)
accept_worker conn prefers_done accepting l =
    some (holding l.accepted, record l { accepted = suc l.accepted })
accept_worker a prefers_done (holding c) l =
    let discarded = some (ended, record l { closed_conns = l.closed_conns ++ c ∷ [] }) in
    let sent = some (looping, record l { accept_out = l.accept_out ++ c ∷ [] }) in
    if not l.is_open && prefers_done
    then discarded
    else if ltb (length l.accept_out) (l.accept_workers * 4)
    then sent
    else if l.is_open
    then none
    else discarded
accept_worker a prefers_done ended l = none

-- What AcceptMessage returns: a connection or net.ErrClosed.
pub data AcceptMessage : Type 0 where
  message_conn : ℕ → AcceptMessage
  net_closed : AcceptMessage

-- The case of AcceptMessage that takes from the channel; `none` while it waits.
unfoldable pub take_conn : List ℕ → Listener → Option (AcceptMessage × Listener)
take_conn (c ∷ rest) l =
    some (message_conn c, record l { accept_out = rest; delivered = l.delivered ++ c ∷ [] })
take_conn [] l = if l.is_open then none else some (net_closed, l)

unfoldable pub accept_message : Bool → Listener → Option (AcceptMessage × Listener)
unfolding take_conn
accept_message prefers_done l =
    if not l.is_open && prefers_done then some (net_closed, l) else take_conn l.accept_out l

-- The first part of Close, which runs once.
unfoldable pub begin_close : Listener → Listener
begin_close l = record l { is_open = false }

abbrev pub all_ended : List Worker → Bool
all_ended [] = true
all_ended (ended ∷ ws) = all_ended ws
all_ended (w ∷ ws) = false

-- The rest of Close, which waits for the workers.
unfoldable pub end_close : Listener → Option Listener
end_close l =
    if l.is_open
    then none
    else if all_ended l.workers
    then some (record l { finished = true })
    else none
