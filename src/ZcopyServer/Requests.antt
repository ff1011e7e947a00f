-- ===== src/ZcopyServer/Requests.antt =====
-- internal/s3rdmaserver/zcopy/service.go: which requests are accepted, and how each is answered
use rdma_demo.Base.{
  ℕ, ◌≡◌, ◌≢◌, Bool, true, none, some, [], arith, length, Option-cases, inl, inr, ◌⊎◌, ◌↔◌,
}
use rdma_demo.Base.Int.{ℤ, pos, ◌≤ℤ◌}
use rdma_demo.Base.Text.{Str, trim_space}
use rdma_demo.ZcopyProto.{Message}
use rdma_demo.RdmaStore.{Object}
use rdma_demo.ZcopyServer.Conn.{ZcopyConn, wait_credit}
use rdma_demo.ZcopyServer.Handlers.{
  ObjectStore, put_accepted, check_put, get_offered, check_get, GetTask, begun, waiting, holding,
}
use rdma_demo.ZcopyServer.Session.{run_task}

-- A PUT is accepted exactly if it has a request id, a bucket and a key that are not blank, a size
-- that is not negative, an offset, and fits into the size limit, if there is one; the bucket is the
-- trimmed one.
pub check_put-accepted :
    (limit : ℤ) (msg : Message) (bucket : Str) (size o : ℤ)
    → (check_put limit msg ≡ put_accepted bucket size o) ↔ (
        (msg.req_id ≢ 0)
        × (trim_space msg.bucket ≢ [])
        × (trim_space msg.key ≢ [])
        × (pos 0 ≤ℤ msg.size)
        × ((limit ≤ℤ pos 0) ⊎ (msg.size ≤ℤ limit))
        × (bucket ≡ trim_space msg.bucket)
        × (size ≡ msg.size)
        × (msg.data_offset ≡ some o))
unfolding check_put
check_put-accepted limit msg bucket size o = (ground arith, ground arith)

-- A GET is offered a payload only if its maximum is not negative, it has an offset, and the store
-- has an object under its trimmed bucket and key, within the maximum if that is positive; the
-- payload is the body of the object.
pub check_get-offered :
    {S : Type 0} (api : ObjectStore S) (msg : Message) (store : S) (p : Str) (o : ℤ)
    → check_get api msg store ≡ get_offered p o
    → (obj : Object) × (api.get_object (trim_space msg.bucket) (trim_space msg.key) store
        ≡ some obj)
      × (p ≡ obj.body)
      × (msg.data_offset ≡ some o)
      × (pos 0 ≤ℤ msg.max)
      × ((msg.max ≤ℤ pos 0) ⊎ (pos (length p) ≤ℤ msg.max))
unfolding check_get
check_get-offered api msg store p o h =
    elim (Option-cases (api.get_object (trim_space msg.bucket) (trim_space msg.key) store)) [
      | inl missing ↦ absurd (ground arith)
      | inr (obj, found) ↦ (obj, found, ground arith, ground arith, ground arith, ground arith)
    ]

-- Once the connection is closed no GET goroutine waits any more: each has a next step.
pub run_task-closed :
    {S : Type 0} (api : ObjectStore S) (limit : ℤ) (delivers : ℕ → Bool) (task : GetTask)
    (zc : ZcopyConn) (store : S)
    → zc.closed ≡ true
    → run_task api limit delivers task zc store ≢ none
unfolding run_task wait_credit
run_task-closed api limit delivers (begun msg) zc store closed h = cc
run_task-closed api limit delivers (holding r p o) zc store closed h = cc
run_task-closed api limit delivers (waiting r p o) zc store closed h = ground arith
