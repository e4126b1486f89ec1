-- ===== src/Transport.antt =====
-- The provider transport: the session host process and what it is built from.
pub mod Lines
pub mod Replay
pub mod Host
pub mod Rpc
pub mod Channel
pub mod Startup
