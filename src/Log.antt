-- ===== src/Log.antt =====
-- src/host.c, src/event.cpp and src/log.cpp: the logs of events of the hosts.
pub mod Host
pub mod Event
pub mod Ring
mod Tests
