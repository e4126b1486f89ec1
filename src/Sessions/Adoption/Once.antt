-- ===== src/Sessions/Adoption/Once.antt =====
-- What an adoption leaves: an alias that cannot be adopted again, and a title that went with it.
use uber_coder.Prelude.{
  ℕ, ◌≡◌, refl, sym, subst, ◌∙◌, ap, Bool, true, false, Option, none, some, List, [], ◌∷◌, Text,
  if◌then◌else◌, lookup_key, is_some, Option-cases, inl, inr, arith,
}
use uber_coder.Sessions.Adoption.{
  ConversationKey, PendingRow, Database, find, joined_row, get_pending, put_pending,
}
use uber_coder.Sessions.Adoption.Aliases.{
  AdoptResult, is_refused, no_adoption, move_title, adopted_row, adopt_row, adopt_pending,
  adopt_pending_conversation,
}
use uber_coder.Sessions.Adoption.Visibility.{Matched}

lookup_key-put_pending :
    (r : Text) (p q : PendingRow) (rows : List (Text × PendingRow))
    → lookup_key r rows ≡ some q
    → lookup_key r (put_pending r p rows) ≡ some p
lookup_key-put_pending r p q [] h = cc
lookup_key-put_pending r p q ((j, o) ∷ rows) h = ground (arith, lookup_key-put_pending r p q rows)

-- An adopted row is refused.
adopted_refused :
    (k : ConversationKey) (m : Matched) (at : ℕ) (p : PendingRow) (db : Database)
    → is_some p.adopted ≡ true
    → adopt_pending k m at (some p) db ≡ (db, no_adoption)
unfolding adopt_pending is_refused
adopted_refused k m at p db h = rw h refl

taken_branch :
    (b : Bool) (x y : Database × AdoptResult)
    → x.1.adopted ≡ false
    → (if b then x else y).1.adopted ≡ true
    → (if b then x else y).0 ≡ y.0
taken_branch true x y e h = ground (arith, e, h)
taken_branch false x y e h = refl

-- The stored row of an adoption that was made.
pub adopted_pending :
    (k : ConversationKey) (m : Matched) (at : ℕ) (o : Option PendingRow) (db : Database)
    → (adopt_pending k m at o db).1.adopted ≡ true
    → (p : PendingRow) × (o ≡ some p)
      × ((adopt_pending k m at o db).0 ≡ (adopt_row k (record k { ref = m.ref }) m at p db).0)
unfolding adopt_pending
adopted_pending k m at none db h = cc
adopted_pending k m at (some p) db h =
    let done = adopt_row k (record k { ref = m.ref }) m at p db in
    (
      p,
      refl,
      taken_branch (is_refused k m p db) (db, no_adoption)
          (done.0, record { adopted = true; rebound_session = done.1 }) refl h,
    )

moved_pending :
    (k native : ConversationKey) (o : Option Text) (db : Database)
    → (move_title k native o db).pending ≡ db.pending
unfolding move_title
moved_pending k native none db = refl
moved_pending k native (some t) db = refl

get_pending_stored :
    (k : ConversationKey) (p : PendingRow) (db : Database)
    → get_pending k db ≡ some p
    → (q : PendingRow) × (lookup_key k.ref db.pending ≡ some q)
unfolding get_pending
get_pending_stored k p db h = elim (Option-cases (lookup_key k.ref db.pending)) [
  | inl e ↦ absurd_row (ap (λ o. joined_row k db o) (sym e) ∙ h)
  | inr found ↦ found
]
  where
    absurd_row : none ≡ some p → (q : PendingRow) × (lookup_key k.ref db.pending ≡ some q)
    absurd_row e = cc

adopted_stored :
    (k : ConversationKey) (m : Matched) (at : ℕ) (q : PendingRow) (db : Database)
    → lookup_key k.ref db.pending ≡ some q
    → is_some q.adopted ≡ true
    → (n : Matched) (t : ℕ) → adopt_pending_conversation k n t db ≡ (db, no_adoption)
unfolding adopt_pending_conversation get_pending
adopted_stored k m at q db e a n t = rw e (adopted_refused k n t _ db a)

-- A pending alias is adopted at most once: behind an adoption that was made, every other is refused, and
-- changes nothing.
pub adopt_once :
    (k : ConversationKey) (m n : Matched) (at later : ℕ) (db : Database)
    → (adopt_pending_conversation k m at db).1.adopted ≡ true
    → adopt_pending_conversation k n later (adopt_pending_conversation k m at db).0
      ≡ ((adopt_pending_conversation k m at db).0, no_adoption)
unfolding adopt_pending_conversation adopt_row
adopt_once k m n at later db h =
    let native : ConversationKey = record k { ref = m.ref } in
    let (p, found, same) = adopted_pending k m at (get_pending k db) db h in
    let (q, stored) = get_pending_stored k p db found in
    let title = find k db.title_overrides in
    let kept = moved_pending k native title db in
    let row =
      lookup_key-put_pending k.ref (adopted_row p m at) q (move_title k native title db).pending
        (ap (λ rows. lookup_key k.ref rows) kept ∙ stored) in
    subst (λ d. adopt_pending_conversation k n later d ≡ (d, no_adoption)) (sym same)
      (adopted_stored k m at (adopted_row p m at) (adopt_row k native m at p db).0 row refl n later)
