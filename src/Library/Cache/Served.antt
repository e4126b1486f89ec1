-- ===== src/Library/Cache/Served.antt =====
-- Reads and parses, which serve only what was parsed.
use uber_coder.Prelude.{List}
use uber_coder.Library.Cache.{Cache}
