-- ===== src/Protocol.antt =====
-- deps/gnea-grbl/grbl/protocol.c: the realtime executor and the line reader of the main loop.
pub mod Overrides
pub mod Holds
pub mod Realtime
pub mod Reader
pub mod Suspend
