-- ===== src/S3Api.antt =====
-- internal/inmems3/s3api/handler.go: the HTTP side of the in-memory server
pub mod Routing
pub mod Handler
pub mod Paths
pub mod Replies
pub mod Pages
