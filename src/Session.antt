-- ===== src/Session.antt =====
-- internal/xrpc/session.go and apppassword.go: who a request acts for, and the session handlers.
pub mod Principal
pub mod Handlers
pub mod Authorization
pub mod Entitlement
pub mod Revocation
pub mod Rotation
pub mod AppPasswords
mod Examples
