-- ===== src/Library/Cache/Fresh.antt =====
-- What is served from the cache, against all that was ever parsed.
use uber_coder.Prelude.{
  lookup_key, remove_key, ℕ, ◌≤◌, ◌≡◌, subst, ◌⊎◌, inl, inr, Bool, true, false, ◌||◌, some, List,
  [], ◌∷◌, ◌++◌, ◌-◌, Text, leb, if◌then◌else◌, same_text, same_text_eq, Bool-cases, arith,
}
use mathlib.Core.List.{Mem, mem-cons_of_mem}
use uber_coder.Library.Cache.{
  Cache, Entry, Answer, returns_null, serves, awaits, resolves, stale_min_bytes, max_cached_bytes,
  evict, insert_entry, delete_entry, refresh_recency,
}
use uber_coder.Library.Cache.Loads.{same_identity, is_unchanged, answer}

-- A property of every member.
abbrev pub All {ℓ} : {A : Type ℓ} → (A → Type 0) → List A → Type 0
All P [] = Unit
All P (x ∷ xs) = P x × All P xs

All-map {ℓ} :
    {A : Type ℓ} (P Q : A → Type 0) (xs : List A) → ((x : A) → P x → Q x) → All P xs → All Q xs
All-map P Q [] f h = tt
All-map P Q (x ∷ xs) f h = (f x h.0, All-map P Q xs f h.1)

module _ (P : Text × Entry → Type 0) where
  remove_key-All : (k : Text) (es : List (Text × Entry)) → All P es → All P (remove_key k es)
  remove_key-All k [] h = h
  remove_key-All k ((j, e) ∷ es) h = elim (Bool-cases (same_text j k)) [
    | inl s ↦ rw s (h.1)
    | inr s ↦ rw s (h.0, remove_key-All k es h.1)
  ]

  append-All : (x : Text × Entry) (es : List (Text × Entry)) → P x → All P es → All P (es ++ x ∷ [])
  append-All x [] p h = (p, tt)
  append-All x (y ∷ es) p h = (h.0, append-All x es p h.1)

  evict-All :
      (k : Text) (es : List (Text × Entry)) (bytes : ℕ) → All P es → All P (evict k es bytes).0
  unfolding evict
  evict-All k [] bytes h = h
  evict-All k ((j, e) ∷ es) bytes h =
      elim (Bool-cases (leb bytes max_cached_bytes || same_text j k)) [
        | inl s ↦ rw s h
        | inr s ↦ rw s (evict-All k es (bytes - e.size) h.1)
      ]

  pub lookup_key-All :
      (k : Text) (e : Entry) (es : List (Text × Entry))
      → lookup_key k es ≡ some e
      → All P es
      → P (k, e)
  lookup_key-All k e [] q h = cc
  lookup_key-All k e ((j, f) ∷ es) q h = elim (Bool-cases (same_text j k)) [
    | inl s ↦
        let same : f ≡ e = (ground arith) in
        subst (λ i. P (i, e)) (same_text_eq j k s) (subst (λ g. P (j, g)) same h.0)
    | inr s ↦ lookup_key-All k e es (ground arith) h.1
  ]

-- What is served was parsed from the same file, and in its present state unless the caller allowed an
-- older one of a file this large.
abbrev IsServed : List (Text × Entry) → Answer → Type 0
IsServed parsed (serves k e stat option) =
    Mem (k, e) parsed
    × (same_identity e.identity stat.identity ≡ true)
    × ((is_unchanged stat e ≡ true) ⊎ ((option ≡ true) × (stale_min_bytes ≤ stat.size)))
IsServed parsed returns_null = Unit
IsServed parsed (awaits n) = Unit
IsServed parsed (resolves n o) = Unit

-- The cache knows nothing but what was parsed, and serves nothing else.
pub record IsFaithful (c : Cache) : Type 0 where
  pub known : All (λ x. Mem x c.parsed) c.cached
  pub served : All (IsServed c.parsed) c.answers

pub same-IsFaithful :
    (c d : Cache)
    → d.cached ≡ c.cached
    → d.parsed ≡ c.parsed
    → d.answers ≡ c.answers
    → IsFaithful c
    → IsFaithful d
same-IsFaithful c d e p a f = record { known = rw (e, p) f.known; served = rw (p, a) f.served }

pub if-IsFaithful :
    (b : Bool) (c d : Cache) → IsFaithful c → IsFaithful d → IsFaithful (if b then c else d)
if-IsFaithful true c d vc vd = vc
if-IsFaithful false c d vc vd = vd

pub answer-IsFaithful :
    (a : Answer) (c : Cache) → IsServed c.parsed a → IsFaithful c → IsFaithful (answer a c)
answer-IsFaithful a c s f = record { known = f.known; served = (s, f.served) }

pub refresh_recency-IsFaithful :
    (k : Text) (e : Entry) (c : Cache)
    → lookup_key k c.cached ≡ some e
    → IsFaithful c
    → IsFaithful (refresh_recency k e c)
unfolding refresh_recency
refresh_recency-IsFaithful k e c h f =
    let P : Text × Entry → Type 0 = λ x. Mem x c.parsed in
    record {
      known =
          append-All P (k, e) (remove_key k c.cached) (lookup_key-All P k e c.cached h f.known)
            (remove_key-All P k c.cached f.known);
      served = f.served;
    }

pub delete_entry-IsFaithful : (k : Text) (c : Cache) → IsFaithful c → IsFaithful (delete_entry k c)
unfolding delete_entry
delete_entry-IsFaithful k c f = record {
  known = remove_key-All (λ x. Mem x c.parsed) k c.cached f.known;
  served = f.served;
}

pub insert_entry-IsFaithful :
    (k : Text) (e : Entry) (c : Cache)
    → Mem (k, e) c.parsed
    → IsFaithful c
    → IsFaithful (insert_entry k e c)
unfolding insert_entry
insert_entry-IsFaithful k e c m f =
    let P : Text × Entry → Type 0 = λ x. Mem x c.parsed in
    record {
      known = evict-All P k _ _ (append-All P (k, e) _ m (remove_key-All P k c.cached f.known));
      served = f.served;
    }

-- One more thing was parsed.
pub parsed-IsFaithful :
    (x : Text × Entry) (c : Cache) → IsFaithful c → IsFaithful (record c { parsed = x ∷ c.parsed })
parsed-IsFaithful x c f = record {
  known =
      All-map (λ y. Mem y c.parsed) (λ y. Mem y (x ∷ c.parsed)) c.cached
        (λ y m. mem-cons_of_mem x m) f.known;
  served = All-map (IsServed c.parsed) (IsServed (x ∷ c.parsed)) c.answers longer f.served;
}
  where
    longer : (a : Answer) → IsServed c.parsed a → IsServed (x ∷ c.parsed) a
    longer (serves k e stat option) s = (mem-cons_of_mem x s.0, s.1, s.2)
    longer returns_null s = tt
    longer (awaits n) s = tt
    longer (resolves n o) s = tt
