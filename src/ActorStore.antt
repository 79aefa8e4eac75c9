-- ===== src/ActorStore.antt =====
-- internal/actorstore/store.go and blockstore.go: the database of one actor and the bytes of its blobs.
pub mod Rows
pub mod Blocks
pub mod Records
pub mod Blobs
pub mod Listing
pub mod Manager
pub mod Index
pub mod Locking
mod Examples
