-- ===== src/VerbsConn.antt =====
-- pkg/rdma/verbs_linux_cgo.go: the Go side of a verbs connection, with the C functions that keep its
-- receive slots and its region for RDMA writes. What the hardware does is an argument.
pub mod Device
pub mod Notify
pub mod Recv
pub mod Slots
pub mod Receiving
pub mod Messages
pub mod Timeouts
pub mod Open
pub mod Send
