-- ===== src/Sync.antt =====
-- internal/xrpc/sync.go: the public endpoints that relays read repositories from. They change nothing.
pub mod Hosted
pub mod Blobs
pub mod Repos
pub mod Paging
pub mod Sorting
pub mod Pages
pub mod Skipped
mod Examples
