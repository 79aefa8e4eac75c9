-- ===== src/Sequencer.antt =====
-- internal/sequencer/sequencer.go and internal/xrpc/subscribe.go: the event log, its live
-- subscribers, and the subscribeRepos session over both.
pub mod Stamp
pub mod Log
pub mod Broadcast
pub mod Order
pub mod Window
pub mod Subscribe
pub mod Splice
pub mod Race
mod Examples
