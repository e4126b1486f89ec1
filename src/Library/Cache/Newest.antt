-- ===== src/Library/Cache/Newest.antt =====
-- Parses that end in another order than they started in.
use uber_coder.Prelude.{
  lookup_key, remove_key, ℕ, ◌≤◌, ◌-◌, ◌≡◌, refl, false, ◌||◌, Option, none, some, List, [], ◌∷◌,
  ◌++◌, Text, leb, ltb, same_text, same_text_refl, Bool-cases, inl, inr, arith,
}
use uber_coder.Library.Cache.{Cache, Entry, Parse, max_cached_bytes, evict, insert_entry}
use uber_coder.Library.Cache.Loads.{keep_parsed, entry_of}
use uber_coder.Library.Cache.Sizes.{IsValid, has_key, remove_key_gone}

lookup_key-evict :
    (k : Text) (e : Entry) (es : List (Text × Entry)) (bytes : ℕ)
    → has_key k es ≡ false
    → lookup_key k (evict k (es ++ (k, e) ∷ []) bytes).0 ≡ some e
unfolding evict
lookup_key-evict k e [] bytes h = elim (Bool-cases (leb bytes max_cached_bytes)) [
  | inl s ↦ rw (same_text_refl k, s, same_text_refl k) refl
  | inr s ↦ rw (same_text_refl k, s, same_text_refl k) refl
]
lookup_key-evict k e ((j, f) ∷ es) bytes h =
    elim (Bool-cases (leb bytes max_cached_bytes || same_text j k)) [
      | inl s ↦ rw s (ground (arith, lookup_key-append k e es))
      | inr s ↦ rw s (lookup_key-evict k e es (bytes - f.size) (ground arith))
    ]
  where
    lookup_key-append :
        (k : Text) (e : Entry) (es : List (Text × Entry))
        → has_key k es ≡ false
        → lookup_key k (es ++ (k, e) ∷ []) ≡ some e
    lookup_key-append k e [] h = rw (same_text_refl k) refl
    lookup_key-append k e ((j, f) ∷ es) h = ground (arith, lookup_key-append k e es)

-- Whatever is evicted for it, an entry that was put in is found.
lookup_key-insert_entry :
    (k : Text) (e : Entry) (c : Cache)
    → IsValid c
    → lookup_key k (insert_entry k e c).cached ≡ some e
unfolding insert_entry
lookup_key-insert_entry k e c v =
    lookup_key-evict k e (remove_key k c.cached) _ (remove_key_gone k c.cached v.distinct)

abbrev pub IsLater : Option Entry → Entry → Type 0
IsLater none e = Unit
IsLater (some old) e = old.generation ≤ e.generation

-- The note of what was parsed changes no entry.
noted :
    (p : Parse) (t : Text) (c : Cache)
    → IsValid c
    → IsValid (record c { parsed = (p.key, entry_of p t) ∷ c.parsed })
noted p t c v = record { exact = v.exact; distinct = v.distinct; capped = v.capped }

newest_of :
    (p : Parse) (t : Text) (o : Option Entry) (c : Cache)
    → IsValid c
    → lookup_key p.key c.cached ≡ o
    → (e : Entry) × (lookup_key p.key (keep_parsed p (some t) c).cached ≡ some e)
      × (p.generation ≤ e.generation)
      × IsLater o e
unfolding keep_parsed entry_of
newest_of p t none c v h =
    rw h (
      entry_of p t,
      lookup_key-insert_entry p.key (entry_of p t) _ (noted p t c v),
      omega arith,
      tt,
    )
newest_of p t (some old) c v h = elim (Bool-cases (ltb old.generation p.generation)) [
  | inl s ↦
      rw (h, s)
        (
          entry_of p t,
          lookup_key-insert_entry p.key (entry_of p t) _ (noted p t c v),
          omega arith,
          ground arith,
        )
  | inr s ↦ rw (h, s) (old, h, ground arith, omega arith)
]

-- A parse that ends with a result leaves in the cache, for its key, an entry that is no older than the
-- parse and no older than the one that was there: a late result never replaces a newer one.
pub keep_parsed_newest :
    (p : Parse) (t : Text) (c : Cache)
    → IsValid c
    → (e : Entry) × (lookup_key p.key (keep_parsed p (some t) c).cached ≡ some e)
      × (p.generation ≤ e.generation)
      × IsLater (lookup_key p.key c.cached) e
keep_parsed_newest p t c v = newest_of p t (lookup_key p.key c.cached) c v refl
