-- ===== src/Dht.antt =====
-- apps/dht: a ring of nodes that find each other by SHA-1 hashes, with their state in WooFs.
mod Tests
pub mod Ring
pub mod State
pub mod Exec
pub mod Find
pub mod Cache
pub mod Successor
pub mod Stabilize
pub mod Notify
pub mod Finger
pub mod Init
pub mod Run
