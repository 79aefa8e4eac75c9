-- ===== src/Repo.antt =====
-- internal/repoops/writer.go: writing to a repository, from a batch of record operations to the signed
-- commit and its firehose event.
pub mod Indigo
pub mod Batch
pub mod Writer
pub mod Laws
pub mod Step
pub mod Agreement
pub mod Replay
pub mod Commits
pub mod Atomic
pub mod Errors
pub mod Owner
mod Examples
