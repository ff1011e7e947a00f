-- ===== src/RdmaClient/Taken.antt =====
-- pkg/rdma/client/client.go: the payloads that the receive loop and the calls take and give back
use rdma_demo.Base.{
  ap, ◌∙◌, ◌%◌, ℕ, suc, ◌+◌, ◌≤◌, ◌≡◌, refl, Bool, false, Option, none, some, List, [], ◌∷◌, arith,
  ℕ_discrete, if-elim, length,
}
use rdma_demo.Base.Int.{ℤ, full_range}
use rdma_demo.Base.Map.{Map, erase}
use rdma_demo.Base.Map.Weight.{weight, weight-insert, weight-erase_le}
use rdma_demo.ZcopyProto.{
  Message, Coded, Json, decode, ok, err, OpKind, hello_resp, resp_ok, resp_err, get_meta, op_kind,
}
use rdma_demo.Transport.{Borrowed}
use rdma_demo.RdmaClient.Config.{BufferRef}
use rdma_demo.RdmaClient.State.{
  Client, ClientError, Inbound, answered, broken, set_recv_err, fill, fail_all_pending, deliver,
  give_back, deliver_payload, recv_borrowed, recv_decoded, recv_coded, recv_arrived, recv_fails,
  recv_round, got, wait_answer, decode_failed,
}
use rdma_demo.RdmaClient.Results.{
  MetaCheck, meta_bad, meta_good, check_meta, register_release, finish_meta, finish_get_meta,
  finish_get_zero_copy, release_token, release, give_back_all, close,
}
use rdma_demo.RdmaClient.Owed.{
  brings_kind, send_ack-owed, brings, one, owed, give_back-releases, give_back-owed,
}

fill-brings :
    (e : ClientError) (p : Map ℕ Unit) (boxes : Map ℕ Inbound)
    → weight brings (fill e p boxes) ≤ weight brings boxes
unfolding fill
fill-brings e [] boxes = omega arith
fill-brings e ((id, u) ∷ p) boxes =
    omega
      (arith, fill-brings e p boxes, weight-insert ℕ_discrete brings id (broken e) (fill e p boxes))

pub recv_fails-owed : (e : ClientError) (c : Client) → owed (recv_fails e c) ≤ owed c
unfolding recv_fails fail_all_pending set_recv_err
recv_fails-owed e c = ground (arith, fill-brings e c.pending c.boxes)

deliver-owed :
    (id : ℕ) (res : Inbound) (c : Client) → owed (deliver id res c).0 ≤ owed c + brings res
unfolding deliver
deliver-owed id res c = ground (arith, weight-insert ℕ_discrete brings id res c.boxes)

deliver-missed :
    (id : ℕ) (res : Inbound) (c : Client) → (deliver id res c).1 ≡ false → (deliver id res c).0 ≡ c
unfolding deliver
deliver-missed id res c h = ground arith

-- What the receive loop takes as payloads in a round: one, after a get_meta.
abbrev takes_kind : OpKind → List Borrowed → ℕ
takes_kind get_meta (b ∷ rest) = 1
takes_kind _ rest = 0

abbrev takes_after : Coded Message → List Borrowed → ℕ
takes_after (err e) rest = 0
takes_after (ok msg) rest = takes_kind (op_kind msg.op) rest

abbrev pub takes : Json → List Borrowed → ℕ
takes json [] = 0
takes json (m ∷ rest) = takes_after (decode json m.payload) rest

module _ (delivers : ℕ → Bool) where
  deliver_payload-owed :
      (msg : Message) (b : Borrowed) (c : Client)
      → owed (deliver_payload delivers msg b c) ≤ suc (owed c)
  unfolding deliver_payload
  deliver_payload-owed msg b c =
      let res = answered msg (some b) in
      if-elim (λ d. owed d ≤ suc (owed c)) (deliver msg.req_id res c).1
        (λ taken. omega (arith, deliver-owed msg.req_id res c))
        (λ missed. omega (
          arith,
          give_back-owed delivers (deliver msg.req_id res c).0,
          ap owed (deliver-missed msg.req_id res c missed),
        ))

  recv_borrowed-owed :
      (msg : Message) (arrived : List Borrowed) (c c' : Client)
      → recv_borrowed delivers msg arrived c ≡ some c'
      → owed c' ≤ owed c + takes_kind get_meta arrived
  unfolding recv_borrowed
  recv_borrowed-owed msg [] c c' h = absurd (ground arith)
  recv_borrowed-owed msg (b ∷ rest) c c' h =
      ground (arith, deliver_payload-owed msg b (record c { inbox = rest }))

  -- The other answers bring no payload.
  plain_answer :
      (k : OpKind) (msg : Message) (c : Client)
      → op_kind msg.op ≡ k
      → brings_kind k ≡ 0
      → owed (deliver msg.req_id (answered msg none) c).0 ≤ owed c
  plain_answer k msg c e none_brought =
      let brought = ap brings_kind e in
      omega (arith, deliver-owed msg.req_id (answered msg none) c, brought, none_brought)

  recv_decoded-owed :
      (k : OpKind) (msg : Message) (c c' : Client)
      → op_kind msg.op ≡ k
      → recv_decoded delivers k msg c ≡ some c'
      → owed c' ≤ owed c + takes_kind k c.inbox
  unfolding recv_decoded
  recv_decoded-owed hello_resp msg c c' e h = ground (arith, plain_answer hello_resp msg c e refl)
  recv_decoded-owed resp_ok msg c c' e h = ground (arith, plain_answer resp_ok msg c e refl)
  recv_decoded-owed resp_err msg c c' e h = ground (arith, plain_answer resp_err msg c e refl)
  recv_decoded-owed get_meta msg c c' e h = recv_borrowed-owed msg c.inbox c c' h
  recv_decoded-owed _ msg c c' e h = ground arith

  recv_coded-owed :
      (d : Coded Message) (c c' : Client)
      → recv_coded delivers d c ≡ some c'
      → owed c' ≤ owed c + takes_after d c.inbox
  unfolding recv_coded
  recv_coded-owed (err e) c c' h = ground (arith, recv_fails-owed decode_failed c)
  recv_coded-owed (ok msg) c c' h = recv_decoded-owed (op_kind msg.op) msg c c' refl h

  recv_arrived-owed :
      (json : Json) (arrived : List Borrowed) (c c' : Client)
      → recv_arrived delivers json arrived c ≡ some c'
      → owed c' ≤ owed c + takes json arrived
  unfolding recv_arrived
  recv_arrived-owed json [] c c' h = absurd (ground arith)
  recv_arrived-owed json (m ∷ rest) c c' h =
      recv_coded-owed (decode json m.payload) (record c { inbox = rest }) c' h

  pub recv_round-owed :
      (json : Json) (c c' : Client)
      → recv_round delivers json c ≡ some c'
      → owed c' ≤ owed c + takes json c.inbox
  unfolding recv_round
  recv_round-owed json c c' h = recv_arrived-owed json c.inbox c c' h

  pub wait_answer-owed :
      (id : ℕ) (c c' : Client) (msg : Message) (b : Option Borrowed)
      → wait_answer id c ≡ (c', got msg b)
      → owed c' + brings (answered msg b) ≤ owed c
  unfolding wait_answer
  wait_answer-owed id c c' msg b h = ground (arith, weight-erase_le ℕ_discrete brings id c.boxes)

  finish_meta-owed :
      (k : MetaCheck) (size : ℤ) (b : Borrowed) (c : Client)
      → owed (finish_meta delivers k size b c).0 ≤ suc (owed c)
  unfolding finish_meta register_release
  finish_meta-owed (meta_bad e) size b c = omega (arith, give_back-owed delivers c)
  finish_meta-owed (meta_good o) size b c =
      omega (arith, weight-insert ℕ_discrete one ((c.next_token + 1) % full_range) b c.releases)

  pub finish_get-owed :
      (max : ℤ) (msg : Message) (b : Option Borrowed) (c : Client)
      → owed (finish_get_zero_copy delivers max msg b c).0 ≤ owed c + brings (answered msg b)
  unfolding finish_get_zero_copy finish_get_meta
  finish_get-owed max msg none c = ground (arith, send_ack-owed delivers c)
  finish_get-owed max msg (some b) c =
      ground (arith, finish_meta-owed (check_meta (length c.shared_memory) max msg b) msg.size b c)

  pub release-owed : (ref : BufferRef) (c : Client) → owed (release delivers ref c) ≤ owed c
  unfolding release release_token
  release-owed ref c = ground (
    arith,
    give_back-owed delivers (record c { releases = erase ℕ_discrete ref.token c.releases }),
    weight-erase_le ℕ_discrete one ref.token c.releases,
  )

  give_back_all-owed :
      (held : Map ℕ Borrowed) (c : Client)
      → owed (give_back_all delivers held c) ≡ owed c + weight one held
  unfolding give_back_all
  give_back_all-owed [] c = omega arith
  give_back_all-owed ((k, b) ∷ held) c =
      omega (arith, give_back_all-owed held (give_back delivers c), give_back-owed delivers c)

  give_back_all-releases :
      (held : Map ℕ Borrowed) (c : Client) → (give_back_all delivers held c).releases ≡ c.releases
  unfolding give_back_all
  give_back_all-releases [] c = refl
  give_back_all-releases (b ∷ held) c =
      give_back_all-releases held (give_back delivers c) ∙ give_back-releases delivers c

  pub close-owed : (c : Client) → owed (close delivers c) ≤ owed c
  unfolding close
  close-owed c =
      if-elim (λ d. owed d ≤ owed c) c.closed (λ _. omega arith)
        (λ _. omega (
          arith,
          give_back_all-owed c.releases c,
          ap (weight one) (give_back_all-releases c.releases c),
        ))
