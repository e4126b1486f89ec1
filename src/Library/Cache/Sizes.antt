-- ===== src/Library/Cache/Sizes.antt =====
-- The cache's bytes, its keys and its cap.
use uber_coder.Prelude.{
  lookup_key, remove_key, ℕ, ◌+◌, ◌-◌, ◌≤◌, ◌≡◌, refl, ◌⊎◌, inl, inr, Bool, false, ◌||◌, some, List,
  [], ◌∷◌, ◌++◌, Text, leb, same_text, same_text_refl, same_text_eq, same_text_sym, subst, ap, suc,
  sym, ◌∙◌, length-append, length, arith, Bool-cases,
}
use uber_coder.Library.Cache.{
  Entry, Cache, max_cached_bytes, refresh_recency, evict, size_of, insert_entry, delete_entry,
  new_cache,
}

-- The bytes of some entries.
abbrev pub total : List (Text × Entry) → ℕ
total [] = 0
total ((k, e) ∷ rest) = e.size + total rest

abbrev pub has_key : Text → List (Text × Entry) → Bool
has_key k [] = false
has_key k ((j, e) ∷ rest) = same_text j k || has_key k rest

-- No key has two entries.
abbrev pub Distinct : List (Text × Entry) → Type 0
Distinct [] = Unit
Distinct ((k, e) ∷ rest) = (has_key k rest ≡ false) × Distinct rest

pub record IsValid (c : Cache) : Type 0 where
  pub exact : c.bytes ≡ total c.cached
  pub distinct : Distinct c.cached
  pub capped : (total c.cached ≤ max_cached_bytes) ⊎ (length c.cached ≤ 1)

total-append :
    (es : List (Text × Entry)) (k : Text) (e : Entry)
    → total (es ++ (k, e) ∷ []) ≡ total es + e.size
total-append [] k e = omega arith
total-append ((j, f) ∷ es) k e = omega (arith, total-append es k e)

total-remove_key :
    (k : Text) (es : List (Text × Entry))
    → total (remove_key k es) + size_of (lookup_key k es) ≡ total es
total-remove_key k [] = refl
total-remove_key k ((j, e) ∷ es) = ground (arith, total-remove_key k es)

length-remove_key : (k : Text) (es : List (Text × Entry)) → length (remove_key k es) ≤ length es
length-remove_key k [] = omega arith
length-remove_key k ((j, e) ∷ es) = ground (arith, length-remove_key k es)

has_key-remove_key :
    (i k : Text) (es : List (Text × Entry))
    → has_key i es ≡ false
    → has_key i (remove_key k es) ≡ false
has_key-remove_key i k [] h = refl
has_key-remove_key i k ((j, e) ∷ es) h = ground (arith, has_key-remove_key i k es)

remove_key-Distinct :
    (k : Text) (es : List (Text × Entry)) → Distinct es → Distinct (remove_key k es)
remove_key-Distinct k [] d = d
remove_key-Distinct k ((j, e) ∷ es) d = elim (Bool-cases (same_text j k)) [
  | inl s ↦ rw s (d.1)
  | inr s ↦ rw s (has_key-remove_key j k es d.0, remove_key-Distinct k es d.1)
]

pub remove_key_gone :
    (k : Text) (es : List (Text × Entry)) → Distinct es → has_key k (remove_key k es) ≡ false
remove_key_gone k [] d = refl
remove_key_gone k ((j, e) ∷ es) d = elim (Bool-cases (same_text j k)) [
  | inl s ↦ rw s (subst (λ i. has_key i es ≡ false) (same_text_eq j k s) d.0)
  | inr s ↦ rw (s, s) (remove_key_gone k es d.1)
]

has_key-append :
    (i k : Text) (e : Entry) (es : List (Text × Entry))
    → has_key i es ≡ false
    → same_text k i ≡ false
    → has_key i (es ++ (k, e) ∷ []) ≡ false
has_key-append i k e [] h s = rw s refl
has_key-append i k e ((j, f) ∷ es) h s = ground (arith, has_key-append i k e es)

-- An entry of a new key keeps the keys distinct.
append-Distinct :
    (k : Text) (e : Entry) (es : List (Text × Entry))
    → Distinct es
    → has_key k es ≡ false
    → Distinct (es ++ (k, e) ∷ [])
append-Distinct k e [] d h = (refl, d)
append-Distinct k e ((j, f) ∷ es) d h = (
  has_key-append j k e es d.0 (ground (arith, same_text_sym k j)),
  append-Distinct k e es d.1 (ground arith),
)

-- The oldest entries go until what is left fits, or is the new entry alone.
record Evicted (k : Text) (e : Entry) (kept : List (Text × Entry) × ℕ) : Type 0 where
  exact : kept.1 ≡ total kept.0
  distinct : Distinct kept.0
  capped : (total kept.0 ≤ max_cached_bytes) ⊎ (kept.0 ≡ (k, e) ∷ [])

evict-Evicted :
    (k : Text) (e : Entry) (es : List (Text × Entry)) (bytes : ℕ)
    → Distinct (es ++ (k, e) ∷ [])
    → bytes ≡ total (es ++ (k, e) ∷ [])
    → has_key k es ≡ false
    → Evicted k e (evict k (es ++ (k, e) ∷ []) bytes)
unfolding evict
evict-Evicted k e [] bytes d b h =
    rw (same_text_refl k) (elim (Bool-cases (leb bytes max_cached_bytes)) [
      | inl s ↦ rw s (record { exact = b; distinct = d; capped = inr refl })
      | inr s ↦ rw s (record { exact = b; distinct = d; capped = inr refl })
    ])
evict-Evicted k e ((j, f) ∷ es) bytes d b h =
    elim (Bool-cases (leb bytes max_cached_bytes || same_text j k)) [
      | inl s ↦ rw s (record { exact = b; distinct = d; capped = inl (ground arith) })
      | inr s ↦ rw s (evict-Evicted k e es (bytes - f.size) d.1 (omega (arith, b)) (ground arith))
    ]

pub new_cache-IsValid : IsValid new_cache
unfolding new_cache
new_cache-IsValid = record { exact = refl; distinct = tt; capped = inl (omega arith) }

-- An entry of the key put at the end, in place of the one there was.
moved-Distinct :
    (k : Text) (e : Entry) (es : List (Text × Entry))
    → Distinct es
    → Distinct (remove_key k es ++ (k, e) ∷ [])
moved-Distinct k e es d =
    append-Distinct k e (remove_key k es) (remove_key-Distinct k es d) (remove_key_gone k es d)

length-moved :
    (k : Text) (e f : Entry) (es : List (Text × Entry))
    → lookup_key k es ≡ some e
    → length (remove_key k es ++ (k, f) ∷ []) ≡ length es
length-moved k e f [] h = cc
length-moved k e f ((j, g) ∷ es) h = elim (Bool-cases (same_text j k)) [
  | inl s ↦ rw s (length-append es ((k, f) ∷ []) ∙ omega arith)
  | inr s ↦ rw s (ap suc (length-moved k e f es (ground arith)))
]

pub refresh_recency-IsValid :
    (k : Text) (e : Entry) (c : Cache)
    → lookup_key k c.cached ≡ some e
    → IsValid c
    → IsValid (refresh_recency k e c)
unfolding refresh_recency
refresh_recency-IsValid k e c h v =
    let t : total (remove_key k c.cached ++ (k, e) ∷ []) ≡ total c.cached =
      (ground (arith, total-append (remove_key k c.cached) k e, total-remove_key k c.cached)) in
    record {
      exact = v.exact ∙ sym t;
      distinct = moved-Distinct k e c.cached v.distinct;
      capped = rw (t, length-moved k e e c.cached h) v.capped;
    }

pub delete_entry-IsValid : (k : Text) (c : Cache) → IsValid c → IsValid (delete_entry k c)
unfolding delete_entry
delete_entry-IsValid k c v = record {
  exact = omega (arith, v.exact, total-remove_key k c.cached);
  distinct = remove_key-Distinct k c.cached v.distinct;
  capped = ground (arith, v.capped, total-remove_key k c.cached, length-remove_key k c.cached);
}

evicted-capped :
    (k : Text) (e : Entry) (es : List (Text × Entry))
    → (total es ≤ max_cached_bytes) ⊎ (es ≡ (k, e) ∷ [])
    → (total es ≤ max_cached_bytes) ⊎ (length es ≤ 1)
evicted-capped k e es (inl h) = inl h
evicted-capped k e es (inr h) = inr (rw h (omega arith))

pub insert_entry-IsValid :
    (k : Text) (e : Entry) (c : Cache) → IsValid c → IsValid (insert_entry k e c)
unfolding insert_entry
insert_entry-IsValid k e c v =
    let others = remove_key k c.cached in
    let h =
      evict-Evicted k e others (c.bytes - size_of (lookup_key k c.cached) + e.size)
        (moved-Distinct k e c.cached v.distinct)
        (omega (arith, v.exact, total-append others k e, total-remove_key k c.cached))
        (remove_key_gone k c.cached v.distinct) in
    record { exact = h.exact; distinct = h.distinct; capped = evicted-capped k e _ h.capped }
