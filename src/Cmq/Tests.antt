-- ===== src/Cmq/Tests.antt =====
-- Tests of src/net/cmq.
mod Frames
mod Messages
