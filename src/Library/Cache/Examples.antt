-- ===== src/Library/Cache/Examples.antt =====
-- The theorems on the cache of parsed transcripts, applied to a file that is read, changed and read again.
use uber_coder.Prelude.{lookup_key, ◌≡◌, ◌≤◌, true, false, some, List, [], ◌∷◌}
use uber_coder.Library.Cache.{Stat, new_cache, Entry, Parse}
use uber_coder.Library.Cache.Loads.{Summary, Event, loads, parse_ends, run, keep_parsed}
use uber_coder.Library.Cache.Sizes.{IsValid}
use uber_coder.Library.Cache.Runs.{run-IsValid}
use uber_coder.Library.Cache.Newest.{IsLater, keep_parsed_newest}

abbrev codex : Summary
codex = record {
  provider = 1 ∷ [];
  project_slug = 2 ∷ [];
  ref = 3 ∷ [];
  transcript_path = some (4 ∷ []);
}

abbrev first : Stat
first = record { identity = record { dev = 1; ino = 2 }; size = 9000000; mtime_ms = 10 }

abbrev grown : Stat
grown = record first { size = 9000100; mtime_ms = 11 }

abbrev history : List Event
history =
    loads codex (some first) false
    ∷ parse_ends 1 (some (65 ∷ []))
    ∷ loads codex (some grown) true
    ∷ parse_ends 2 (some (66 ∷ []))
    ∷ []

run-IsValid_example : IsValid (run history new_cache)
run-IsValid_example = run-IsValid history

abbrev late : Parse
late = record { key = 5 ∷ []; stat = first; generation = 1; had_cached = false }

keep_parsed_newest_example :
    (e : Entry) × (lookup_key
        (5 ∷ [])
        (keep_parsed late (some (65 ∷ [])) (run history new_cache)).cached
      ≡ some e)
    × (1 ≤ e.generation)
    × IsLater (lookup_key (5 ∷ []) (run history new_cache).cached) e
keep_parsed_newest_example =
    keep_parsed_newest late (65 ∷ []) (run history new_cache) (run-IsValid history)
