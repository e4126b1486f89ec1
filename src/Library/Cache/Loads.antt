-- ===== src/Library/Cache/Loads.antt =====
-- `loadProviderConversationFromSummary` of apps/server/src/lib/provider-conversation-cache.ts, and the ends of
-- the parses that it starts, as steps.
use uber_coder.Prelude.{
  lookup_key, remove_key, ℕ, suc, Bool, true, false, not, ◌&&◌, ◌||◌, Option, none, some, List, [],
  ◌∷◌, ◌++◌, Text, ltb, leb, ◌==◌, if◌then◌else◌, is_empty, is_some, filter,
}
use uber_coder.Library.Cache.{
  stale_min_bytes, Identity, Stat, Entry, Flight, Parse, Answer, returns_null, serves, awaits,
  resolves, Cache, refresh_recency, insert_entry, delete_entry,
}

pub record Summary : Type 0 where
  pub provider : Text
  pub project_slug : Text
  pub ref : Text
  pub transcript_path : Option Text

abbrev keyed : Summary → Option Text → Option Text
keyed s none = none
keyed s (some path) =
    if is_empty path
    then none
    else some (s.provider ++ 58 ∷ (s.project_slug ++ 58 ∷ (s.ref ++ 58 ∷ path)))

-- `cacheKey`
unfoldable pub cache_key : Summary → Option Text
cache_key s = keyed s s.transcript_path

abbrev pub same_identity : Identity → Identity → Bool
same_identity a b = (a.dev == b.dev) && (a.ino == b.ino)

abbrev same_stat : Stat → Stat → Bool
same_stat a b =
    same_identity a.identity b.identity && (a.size == b.size) && (a.mtime_ms == b.mtime_ms)

abbrev pub answer : Answer → Cache → Cache
answer a c = record c { answers = a ∷ c.answers }

-- Whether an entry is of the file's present state, or of the same file.
abbrev pub is_unchanged : Stat → Entry → Bool
is_unchanged stat e =
    same_identity e.identity stat.identity && (e.mtime_ms == stat.mtime_ms) && (e.size == stat.size)

abbrev pub may_be_stale : Bool → Stat → Entry → Bool
may_be_stale allow stat e = allow && same_identity e.identity stat.identity

-- The entry that may be served while the file changes.
abbrev pub stale_entry : Bool → Stat → Option Entry → Option Entry
stale_entry allow stat none = none
stale_entry allow stat (some e) = if may_be_stale allow stat e then some e else none

abbrev joins : Stat → Bool → Option Flight → Bool
joins stat stale none = false
joins stat stale (some f) = same_stat f.fingerprint stat || stale

abbrev promise_of : Option Flight → ℕ
promise_of none = 0
promise_of (some f) = f.promise

-- The answer for an older entry, or for the promise of a parse.
unfoldable pub answer_now : Text → Stat → Bool → ℕ → Option Entry → Cache → Cache
answer_now k stat option promise none c = answer (awaits promise) c
answer_now k stat option promise (some e) c = answer (serves k e stat option) c

unfoldable pub start_parse : Text → Stat → Option Entry → Cache → Cache
start_parse k stat cached c =
    let generation = suc c.next_generation in
    record c {
      next_generation = generation;
      parses =
          record { key = k; stat = stat; generation = generation; had_cached = is_some cached }
          ∷ c.parses;
      in_flight =
          remove_key k c.in_flight ++ (k, record { fingerprint = stat; promise = generation }) ∷ [];
    }

-- The file's state is not that of the entry, if there is one. The caller's option
-- `allowStaleWhileChanging` comes first, and what it allows of a file this large behind it.
unfoldable pub parse_or_join : Text → Stat → Bool → Bool → Option Entry → Cache → Cache
parse_or_join k stat option allow cached c =
    let pending = lookup_key k c.in_flight in
    let stale = stale_entry allow stat cached in
    if joins stat (is_some stale) pending
    then answer_now k stat option (promise_of pending) stale c
    else answer_now k stat option (suc c.next_generation) stale (start_parse k stat cached c)

unfoldable pub look_up : Text → Stat → Bool → Bool → Option Entry → Cache → Cache
look_up k stat option allow none c = parse_or_join k stat option allow none c
look_up k stat option allow (some e) c =
    if is_unchanged stat e
    then answer (serves k e stat option) (refresh_recency k e c)
    else parse_or_join k stat option allow (some e) c

unfoldable pub load_key : Option Text → Option Stat → Bool → Cache → Cache
load_key none stat option c = answer returns_null c
load_key (some k) none option c = answer returns_null (delete_entry k c)
load_key (some k) (some stat) option c =
    look_up k stat option (option && leb stale_min_bytes stat.size) (lookup_key k c.cached) c

-- `loadProviderConversationFromSummary`, once `fs.stat` has answered or failed.
unfoldable pub load : Summary → Option Stat → Bool → Cache → Cache
load s stat allow c = load_key (cache_key s) stat allow c

abbrev pub find_parse : ℕ → List Parse → Option Parse
find_parse n [] = none
find_parse n (p ∷ ps) = let other = find_parse n ps in if p.generation == n then some p else other

abbrev older : ℕ → Option Entry → Bool
older n none = true
older n (some e) = ltb e.generation n

abbrev is_promise : ℕ → Option Flight → Bool
is_promise n none = false
is_promise n (some f) = f.promise == n

unfoldable pub entry_of : Parse → Text → Entry
entry_of p conversation = record {
  conversation = conversation;
  mtime_ms = p.stat.mtime_ms;
  size = p.stat.size;
  identity = p.stat.identity;
  generation = p.generation;
}

-- A parse's result, in the cache unless a newer one is there; or its failure.
unfoldable pub keep_parsed : Parse → Option Text → Cache → Cache
keep_parsed p (some t) c =
    let noted = record c { parsed = (p.key, entry_of p t) ∷ c.parsed } in
    if older p.generation (lookup_key p.key c.cached)
    then insert_entry p.key (entry_of p t) noted
    else noted
keep_parsed p none c =
    if is_promise p.generation (lookup_key p.key c.in_flight) && not p.had_cached
    then delete_entry p.key c
    else c

unfoldable pub end_flight : Parse → Cache → Cache
end_flight p c =
    if is_promise p.generation (lookup_key p.key c.in_flight)
    then record c { in_flight = remove_key p.key c.in_flight }
    else c

unfoldable pub end_parse : Option Parse → Option Text → Cache → Cache
end_parse none result c = c
end_parse (some p) result c =
    let kept = end_flight p (keep_parsed p result c) in
    answer (resolves p.generation result)
      (record kept { parses = filter (λ q. not (q.generation == p.generation)) kept.parses })

pub data Event : Type 0 where
  loads : Summary → Option Stat → Bool → Event
  parse_ends : ℕ → Option Text → Event

unfoldable pub step : Event → Cache → Cache
step (loads s stat allow) c = load s stat allow c
step (parse_ends n result) c = end_parse (find_parse n c.parses) result c

unfoldable pub run : List Event → Cache → Cache
run [] c = c
run (e ∷ es) c = run es (step e c)
