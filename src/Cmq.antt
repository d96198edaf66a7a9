-- ===== src/Cmq.antt =====
-- src/net/cmq: the messages between namespaces.
pub mod Frame
pub mod Packet
pub mod Receive
mod Tests
