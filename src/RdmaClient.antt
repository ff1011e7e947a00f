-- ===== src/RdmaClient.antt =====
-- pkg/rdma/client/client.go: the zero-copy client
pub mod Config
pub mod State
pub mod Calls
pub mod Results
pub mod Owed
pub mod Taken
pub mod Acks
pub mod Answers
pub mod Payloads
