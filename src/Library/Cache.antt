-- ===== src/Library/Cache.antt =====
-- apps/server/src/lib/provider-conversation-cache.ts: parsed transcripts, kept by the use that is made of
-- them. A conversation is a text; what `fs.stat` and a parse answer are arguments. A parse, and the
-- promise of its result, is known by its generation.
pub mod Loads
pub mod Sizes
pub mod Runs
pub mod Fresh
pub mod Asked
pub mod Served
pub mod Newest
mod Examples
use uber_coder.Prelude.{
  lookup_key, remove_key, ℕ, suc, ◌+◌, ◌-◌, Bool, true, false, not, ◌&&◌, ◌||◌, Option, none, some,
  List, [], ◌∷◌, ◌++◌, Text, ltb, leb, ◌==◌, if◌then◌else◌, same_text, is_empty, is_some, filter,
}

abbrev pub max_cached_bytes : ℕ
max_cached_bytes = 67108864

abbrev pub stale_min_bytes : ℕ
stale_min_bytes = 8388608

pub record Identity : Type 0 where
  pub dev : ℕ
  pub ino : ℕ

-- `fs.Stats`
pub record Stat : Type 0 where
  pub identity : Identity
  pub size : ℕ
  pub mtime_ms : ℕ

pub record Entry : Type 0 where
  pub conversation : Text
  pub mtime_ms : ℕ
  pub size : ℕ
  pub identity : Identity
  pub generation : ℕ

-- A parse under way, the newest of its key.
pub record Flight : Type 0 where
  pub fingerprint : Stat
  pub promise : ℕ

-- What a parse remembers from its start.
pub record Parse : Type 0 where
  pub key : Text
  pub stat : Stat
  pub generation : ℕ
  pub had_cached : Bool

pub data Answer : Type 0 where
  returns_null : Answer
  -- The key, the entry, the file's state and whether the caller allowed an older state of the file.
  serves : Text → Entry → Stat → Bool → Answer
  awaits : ℕ → Answer
  resolves : ℕ → Option Text → Answer

pub record Cache : Type 0 where
  pub cached : List (Text × Entry)
  pub bytes : ℕ
  pub next_generation : ℕ
  pub in_flight : List (Text × Flight)
  pub parses : List Parse
  -- What was parsed and what was answered so far, the newest first.
  pub parsed : List (Text × Entry)
  pub answers : List Answer

unfoldable pub new_cache : Cache
new_cache = record {
  cached = [];
  bytes = 0;
  next_generation = 0;
  in_flight = [];
  parses = [];
  parsed = [];
  answers = [];
}

-- `refreshCacheRecency`
unfoldable pub refresh_recency : Text → Entry → Cache → Cache
refresh_recency k e c = record c { cached = remove_key k c.cached ++ (k, e) ∷ [] }

-- The loop of `insertCacheEntry`, from the oldest entry on.
unfoldable pub evict : Text → List (Text × Entry) → ℕ → List (Text × Entry) × ℕ
evict k [] bytes = ([], bytes)
evict k ((j, e) ∷ rest) bytes =
    let others = evict k rest (bytes - e.size) in
    if leb bytes max_cached_bytes || same_text j k then ((j, e) ∷ rest, bytes) else others

abbrev pub size_of : Option Entry → ℕ
size_of none = 0
size_of (some e) = e.size

-- `insertCacheEntry`
unfoldable pub insert_entry : Text → Entry → Cache → Cache
insert_entry k e c =
    let kept =
      evict k (remove_key k c.cached ++ (k, e) ∷ [])
        (c.bytes - size_of (lookup_key k c.cached) + e.size) in
    record c { cached = kept.0; bytes = kept.1 }

-- `deleteCacheEntry`
unfoldable pub delete_entry : Text → Cache → Cache
delete_entry k c = record c {
  cached = remove_key k c.cached;
  bytes = c.bytes - size_of (lookup_key k c.cached);
}
