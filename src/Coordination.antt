-- ===== src/Coordination.antt =====
-- Assignments and the messages between them.
pub mod Continuation
