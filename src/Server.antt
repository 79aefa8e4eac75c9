-- ===== src/Server.antt =====
-- The Server of internal/xrpc/server.go, as far as the handlers share it, and the events they append.
pub mod State
pub mod Events
pub mod Effects
pub mod Writes
pub mod SigningKey
pub mod Toy
