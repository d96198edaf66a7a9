-- ===== src/Raft.antt =====
-- apps/raft: a Raft replica whose state lives in WooFs and whose steps are WooF handlers.
pub mod State
pub mod Exec
pub mod Config
pub mod Ballot
pub mod Vote
pub mod Append
pub mod Election
pub mod ClientPut
pub mod Commit
pub mod Replicate
pub mod Forward
pub mod Run
mod Samples
mod Tests
