-- ===== src/Transport.antt =====
-- pkg/rdma/conn.go and the messages of pkg/rdma/zcopyproto: what goes over a message connection.
-- A frame is what is handed to SendMessage or SendMessageAt, a borrowed message what
-- RecvBorrowedMessage returns; that its Release takes effect once is written out where it is called.
use rdma_demo.Base.Int.{ℤ}
use rdma_demo.Base.Text.{Str}
use rdma_demo.ZcopyProto.{Message}

pub data Frame : Type 0 where
  control : Message → Frame
  payload_at : Str → ℤ → Frame

pub record Borrowed : Type 0 where
  pub payload : Str
  pub shared_offset : ℤ
