-- ===== src/Library/Cache/Asked.antt =====
-- What is answered goes back to a read that asked for it: its key, the file's state that it saw, and
-- whether its caller allowed an older one.
use uber_coder.Prelude.{
  lookup_key, ℕ, ◌≡◌, refl, Bool, true, false, Option, none, some, List, [], ◌∷◌, Text,
  if◌then◌else◌,
}
use mathlib.Core.List.{Mem, mem-cons_self, mem-cons_of_mem}
use uber_coder.Library.Cache.{
  Cache, Entry, Stat, Parse, Answer, returns_null, serves, awaits, resolves, delete_entry,
  refresh_recency, insert_entry,
}
use uber_coder.Library.Cache.Loads.{
  Event, loads, parse_ends, Summary, cache_key, is_unchanged, answer_now, parse_or_join, look_up,
  load_key, load, keep_parsed, end_flight, end_parse, step, run, start_parse, find_parse,
}
use uber_coder.Library.Cache.Fresh.{All}

-- The read that an answer is for.
abbrev pub IsAsked : List Event → Answer → Type 0
IsAsked es (serves k e stat option) =
    (s : Summary) × (cache_key s ≡ some k) × Mem (loads s (some stat) option) es
IsAsked es returns_null = Unit
IsAsked es (awaits n) = Unit
IsAsked es (resolves n o) = Unit

All-if :
    (P : Answer → Type 0) (b : Bool) (c d : Cache)
    → All P c.answers
    → All P d.answers
    → All P (if b then c else d).answers
All-if P true c d p q = p
All-if P false c d p q = q

abbrev Asked : List Event → Cache → Type 0
Asked es c = All (IsAsked es) c.answers

module _ (es : List Event) (k : Text) (stat : Stat) (option : Bool) where
  abbrev Asks : Type 0
  Asks = (s : Summary) × (cache_key s ≡ some k) × Mem (loads s (some stat) option) es

  answer_now-Asked :
      (n : ℕ) (o : Option Entry) (c : Cache)
      → Asks
      → Asked es c
      → Asked es (answer_now k stat option n o c)
  unfolding answer_now
  answer_now-Asked n none c a h = (tt, h)
  answer_now-Asked n (some e) c a h = (a, h)

  parse_or_join-Asked :
      (allow : Bool) (o : Option Entry) (c : Cache)
      → Asks
      → Asked es c
      → Asked es (parse_or_join k stat option allow o c)
  unfolding parse_or_join start_parse
  parse_or_join-Asked allow o c a h =
      All-if (IsAsked es) _ _ _ (answer_now-Asked _ _ c a h)
        (answer_now-Asked _ _ (start_parse k stat o c) a h)

  look_up-Asked :
      (allow : Bool) (o : Option Entry) (c : Cache)
      → Asks
      → Asked es c
      → Asked es (look_up k stat option allow o c)
  unfolding look_up refresh_recency
  look_up-Asked allow none c a h = parse_or_join-Asked allow none c a h
  look_up-Asked allow (some e) c a h =
      All-if (IsAsked es) (is_unchanged stat e) _ _ (a, h)
        (parse_or_join-Asked allow (some e) c a h)

load-Asked :
    (es : List Event) (s : Summary) (stat : Option Stat) (option : Bool) (c : Cache)
    → Mem (loads s stat option) es
    → Asked es c
    → Asked es (load s stat option c)
unfolding load
load-Asked es s stat option c m h = at (cache_key s) stat refl m
  where
    at :
        (o : Option Text) (t : Option Stat)
        → cache_key s ≡ o
        → Mem (loads s t option) es
        → Asked es (load_key o t option c)
    at none t e n = unfold load_key in (tt, h)
    at (some k) none e n = unfold load_key delete_entry in (tt, h)
    at (some k) (some t) e n =
        unfold load_key in look_up-Asked es k t option _ (lookup_key k c.cached) c (s, e, n) h

keep_parsed-Asked :
    (es : List Event) (p : Parse) (result : Option Text) (c : Cache)
    → Asked es c
    → Asked es (keep_parsed p result c)
unfolding keep_parsed insert_entry delete_entry
keep_parsed-Asked es p (some t) c h = All-if (IsAsked es) _ _ _ h h
keep_parsed-Asked es p none c h = All-if (IsAsked es) _ _ c h h

end_flight-Asked :
    (es : List Event) (p : Parse) (c : Cache) → Asked es c → Asked es (end_flight p c)
unfolding end_flight
end_flight-Asked es p c h = All-if (IsAsked es) _ _ c h h

end_parse-Asked :
    (es : List Event) (o : Option Parse) (result : Option Text) (c : Cache)
    → Asked es c
    → Asked es (end_parse o result c)
unfolding end_parse
end_parse-Asked es none result c h = h
end_parse-Asked es (some p) result c h =
    (tt, end_flight-Asked es p (keep_parsed p result c) (keep_parsed-Asked es p result c h))

step-Asked : (es : List Event) (e : Event) (c : Cache) → Mem e es → Asked es c → Asked es (step e c)
unfolding step
step-Asked es (loads s stat option) c m h = load-Asked es s stat option c m h
step-Asked es (parse_ends n result) c m h = end_parse-Asked es (find_parse n c.parses) result c h

-- Every answer of a run is of one of its reads.
pub run-Asked :
    (es later : List Event) (c : Cache)
    → ((e : Event) → Mem e later → Mem e es)
    → Asked es c
    → Asked es (run later c)
unfolding run
run-Asked es [] c m h = h
run-Asked es (e ∷ later) c m h =
    run-Asked es later (step e c) (λ f i. m f (mem-cons_of_mem e i))
      (step-Asked es e c (m e mem-cons_self) h)
