-- ===== src/InmemZcopy.antt =====
-- internal/inmems3/zcopy/service.go: the zero-copy service of the in-memory server. It is a second
-- copy of the RDMA server's, from which it differs in what a wait for a credit does once the connection is
-- closed and in what it keeps of a payload.
pub mod Conn
pub mod Handlers
pub mod Session
pub mod Agreement
pub mod Rounds
pub mod Closing
pub mod Draining
