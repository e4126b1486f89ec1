-- ===== src/Sessions.antt =====
-- The server's sessions: what a person sends, the timeline of a conversation, the working flag.
pub mod Queue
pub mod Timeline
pub mod Working
pub mod Monitor
pub mod Recovery
pub mod Adoption
