-- ===== src/Dht/Tests.antt =====
-- A ring of three nodes, and the theorems on apps/dht at it.
pub mod Ring
mod Handlers
mod Caches
mod Start
