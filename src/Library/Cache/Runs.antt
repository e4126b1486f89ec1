-- ===== src/Library/Cache/Runs.antt =====
-- The cache over a whole history of reads and parses.
use uber_coder.Prelude.{
  lookup_key, ℕ, ◌≡◌, refl, Bool, true, false, Option, none, some, List, [], ◌∷◌, Text,
  if◌then◌else◌, Option-cases, inl, inr,
}
use uber_coder.Library.Cache.{Cache, Entry, Stat, Parse, new_cache, delete_entry, refresh_recency}
use uber_coder.Library.Cache.Loads.{
  Event, loads, parse_ends, is_unchanged, answer_now, parse_or_join, look_up, load_key, load,
  keep_parsed, end_flight, end_parse, find_parse, step, run, start_parse, entry_of,
}
use uber_coder.Library.Cache.Sizes.{
  IsValid, new_cache-IsValid, refresh_recency-IsValid, delete_entry-IsValid, insert_entry-IsValid,
}

-- Only the entries and their bytes count.
same-IsValid : (c d : Cache) → d.cached ≡ c.cached → d.bytes ≡ c.bytes → IsValid c → IsValid d
same-IsValid c d e b v = record {
  exact = rw (e, b) v.exact;
  distinct = rw e v.distinct;
  capped = rw e v.capped;
}

if-IsValid : (b : Bool) (c d : Cache) → IsValid c → IsValid d → IsValid (if b then c else d)
if-IsValid true c d vc vd = vc
if-IsValid false c d vc vd = vd

answer_now-IsValid :
    (k : Text) (stat : Stat) (option : Bool) (n : ℕ) (e : Option Entry) (c : Cache)
    → IsValid c
    → IsValid (answer_now k stat option n e c)
unfolding answer_now
answer_now-IsValid k stat option n none c v = same-IsValid c _ refl refl v
answer_now-IsValid k stat option n (some e) c v = same-IsValid c _ refl refl v

parse_or_join-IsValid :
    (k : Text) (stat : Stat) (option allow : Bool) (e : Option Entry) (c : Cache)
    → IsValid c
    → IsValid (parse_or_join k stat option allow e c)
unfolding parse_or_join start_parse
parse_or_join-IsValid k stat option allow e c v =
    if-IsValid _ _ _ (answer_now-IsValid k stat option _ _ c v)
      (answer_now-IsValid k stat option _ _ (start_parse k stat e c) (same-IsValid c _ refl refl v))

look_up-IsValid :
    (k : Text) (stat : Stat) (option allow : Bool) (o : Option Entry) (c : Cache)
    → lookup_key k c.cached ≡ o
    → IsValid c
    → IsValid (look_up k stat option allow o c)
unfolding look_up
look_up-IsValid k stat option allow none c h v = parse_or_join-IsValid k stat option allow none c v
look_up-IsValid k stat option allow (some e) c h v =
    if-IsValid (is_unchanged stat e) _ _
      (same-IsValid (refresh_recency k e c) _ refl refl (refresh_recency-IsValid k e c h v))
      (parse_or_join-IsValid k stat option allow (some e) c v)

load_key-IsValid :
    (k : Option Text) (stat : Option Stat) (option : Bool) (c : Cache)
    → IsValid c
    → IsValid (load_key k stat option c)
unfolding load_key
load_key-IsValid none stat option c v = same-IsValid c _ refl refl v
load_key-IsValid (some k) none option c v =
    same-IsValid (delete_entry k c) _ refl refl (delete_entry-IsValid k c v)
load_key-IsValid (some k) (some stat) option c v =
    look_up-IsValid k stat option _ (lookup_key k c.cached) c refl v

keep_parsed-IsValid :
    (p : Parse) (result : Option Text) (c : Cache) → IsValid c → IsValid (keep_parsed p result c)
unfolding keep_parsed
keep_parsed-IsValid p (some t) c v =
    if-IsValid _ _ _
      (insert_entry-IsValid p.key (entry_of p t)
        (record c { parsed = (p.key, entry_of p t) ∷ c.parsed }) (same-IsValid c _ refl refl v))
      (same-IsValid c _ refl refl v)
keep_parsed-IsValid p none c v = if-IsValid _ _ _ (delete_entry-IsValid p.key c v) v

end_flight-IsValid : (p : Parse) (c : Cache) → IsValid c → IsValid (end_flight p c)
unfolding end_flight
end_flight-IsValid p c v = if-IsValid _ _ c (same-IsValid c _ refl refl v) v

step-IsValid : (e : Event) (c : Cache) → IsValid c → IsValid (step e c)
unfolding step load end_parse
step-IsValid (loads s stat allow) c v = load_key-IsValid _ stat allow c v
step-IsValid (parse_ends n result) c v = elim (Option-cases (find_parse n c.parses)) [
  | inl e ↦ rw (e, step, end_parse) v
  | inr (p, e) ↦
      rw (e, step, end_parse)
        (same-IsValid (end_flight p (keep_parsed p result c)) _ refl refl
          (end_flight-IsValid p _ (keep_parsed-IsValid p result c v)))
]

run_from-IsValid : (es : List Event) (c : Cache) → IsValid c → IsValid (run es c)
unfolding run
run_from-IsValid [] c v = v
run_from-IsValid (e ∷ es) c v = run_from-IsValid es (step e c) (step-IsValid e c v)

-- Over any history of reads and parses, which end in any order, the bytes are those of the entries, no
-- key has two entries, and the entries fit the cap unless there is only one.
pub run-IsValid : (es : List Event) → IsValid (run es new_cache)
run-IsValid es = run_from-IsValid es new_cache new_cache-IsValid
