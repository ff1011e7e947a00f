-- ===== src/ZcopyServer.antt =====
-- internal/s3rdmaserver/zcopy/service.go: the server side of the zero-copy protocol
pub mod Conn
pub mod Handlers
pub mod Session
pub mod Gets
pub mod Flow
pub mod Credits
pub mod Requests
pub mod Frames
pub mod Interleaving
pub mod Delivery
pub mod Rounds
pub mod Answers
pub mod Stores
