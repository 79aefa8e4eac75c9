-- ===== src/Network.antt =====
-- internal/xrpc/clientip.go and safedial.go: which client a request comes from, how often it may try to log
-- in, and where the server itself may connect to.
pub mod Addr
pub mod ClientIp
pub mod Limiter
pub mod SafeDial
pub mod Buckets
pub mod Public
mod Examples
