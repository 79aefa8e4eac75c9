-- ===== src/Records.antt =====
-- internal/xrpc/repo.go and preferences.go: the handlers that write and read an account's own repository,
-- its blobs and its preferences.
pub mod Entries
pub mod Writes
pub mod Lookup
pub mod Reads
pub mod Blobs
pub mod Uploads
pub mod Owned
mod Examples
