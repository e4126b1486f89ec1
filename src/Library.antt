-- ===== src/Library.antt =====
-- The helpers of apps/server/src/lib.
pub mod Cache
