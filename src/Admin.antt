-- ===== src/Admin.antt =====
-- internal/xrpc/admin.go: the admin API.
pub mod Guard
pub mod Accounts
pub mod LockOut
pub mod Approval
pub mod Signup
mod Examples
