-- ===== src/RdmaApi.antt =====
-- internal/s3rdmaserver/s3api/handler.go: the HTTP side of the RDMA server
pub mod Paths
pub mod Uploads
pub mod Replies
pub mod Handler
pub mod Requests
pub mod Sequences
pub mod Stores
