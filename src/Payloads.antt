-- ===== src/Payloads.antt =====
-- internal/inmems3/payload/loader.go: the import of directories into the in-memory store, and the removal
-- of its buckets
pub mod Files
pub mod Loader
pub mod Clear
pub mod Failures
pub mod Replacement
