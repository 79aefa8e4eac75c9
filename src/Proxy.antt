-- ===== src/Proxy.antt =====
-- internal/xrpc/serviceauth.go and proxy.go: tokens for other services, and requests passed on to them.
pub mod ServiceAuth
pub mod Target
pub mod Forward
pub mod Outgoing
mod Examples
