-- ===== src/Identity.antt =====
-- internal/plc/plc.go and internal/xrpc/identity.go: did:plc operations and the handlers of identities.
pub mod Json
pub mod Plc
pub mod Operation
pub mod Handlers
pub mod Renaming
mod Examples
pub mod SignedOnce
