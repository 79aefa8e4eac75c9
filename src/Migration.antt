-- ===== src/Migration.antt =====
-- internal/xrpc/migration.go: moving an account in and out.
pub mod Car
pub mod Import
pub mod Checks
pub mod Signup
pub mod Account
pub mod Paths
pub mod Walk
pub mod Loaded
pub mod Replaced
pub mod Atomic
pub mod Outcome
pub mod Deletion
pub mod Reserved
mod Examples
