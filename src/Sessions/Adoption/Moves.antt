-- ===== src/Sessions/Adoption/Moves.antt =====
-- What goes from an alias to the native conversation that adopts it.
use uber_coder.Prelude.{
  ℕ, ◌≡◌, ◌↔◌, refl, sym, subst, ◌∙◌, ap, true, false, Option, none, some, List, [], ◌∷◌, ◌++◌,
  Text, if◌then◌else◌, same_text_refl, same_text_eq, Bool-cases, inl, inr, arith,
}
use uber_coder.Sessions.Adoption.{
  ConversationKey, IndexedConversation, same_conversation, Database, find, without, put_row,
  get_pending,
}
use uber_coder.Sessions.Adoption.Aliases.{move_title, adopt_row, adopt_pending_conversation}
use uber_coder.Sessions.Adoption.Visibility.{
  Matched, key_of, upsert_index, is_conversation_visible_in_discovery,
}
use uber_coder.Sessions.Adoption.Hidden.{IsHidden, visible_iff}
use uber_coder.Sessions.Adoption.Once.{adopted_pending}

same_conversation_refl : (k : ConversationKey) → same_conversation k k ≡ true
same_conversation_refl k =
    rw (same_text_refl k.project_slug, same_text_refl k.provider, same_text_refl k.ref) refl

same_conversation_eq : (j k : ConversationKey) → same_conversation j k ≡ true → j ≡ k
same_conversation_eq j k h = ground (
  arith,
  h,
  same_text_eq j.project_slug k.project_slug,
  same_text_eq j.provider k.provider,
  same_text_eq j.ref k.ref,
)

module _ {ℓ} {A : Type ℓ} where
  find-put_row :
      (k : ConversationKey) (a : A) (rows : List (ConversationKey × A))
      → find k (put_row k a rows) ≡ some a
  find-put_row k a [] = rw (same_conversation_refl k) refl
  find-put_row k a ((j, b) ∷ rows) = elim (Bool-cases (same_conversation j k)) [
    | inl s ↦ rw s (find-put_row k a rows)
    | inr s ↦ rw (s, s) (find-put_row k a rows)
  ]

  find-without_same :
      (k : ConversationKey) (rows : List (ConversationKey × A)) → find k (without k rows) ≡ none
  find-without_same k [] = refl
  find-without_same k ((j, b) ∷ rows) = elim (Bool-cases (same_conversation j k)) [
    | inl s ↦ rw s (find-without_same k rows)
    | inr s ↦ rw (s, s) (find-without_same k rows)
  ]

  find-without_other :
      (k n : ConversationKey) (rows : List (ConversationKey × A))
      → same_conversation k n ≡ false
      → find n (without k rows) ≡ find n rows
  find-without_other k n [] d = refl
  find-without_other k n ((j, b) ∷ rows) d = elim (Bool-cases (same_conversation j k)) [
    | inl s ↦
        let other : same_conversation j n ≡ false =
          (subst (λ i. same_conversation i n ≡ false) (sym (same_conversation_eq j k s)) d) in
        rw (s, other) (find-without_other k n rows d)
    | inr s ↦
        rw s (ap (λ o. if same_conversation j n then some b else o) (find-without_other k n rows d))
  ]

  find-append_other :
      (k n : ConversationKey) (a : A) (rows : List (ConversationKey × A))
      → same_conversation k n ≡ false
      → find n (rows ++ (k, a) ∷ []) ≡ find n rows
  find-append_other k n a [] d = rw d refl
  find-append_other k n a ((j, b) ∷ rows) d =
      ap (λ o. if same_conversation j n then some b else o) (find-append_other k n a rows d)

moved_index :
    (k native : ConversationKey) (o : Option Text) (db : Database)
    → (move_title k native o db).index ≡ db.index
unfolding move_title
moved_index k native none db = refl
moved_index k native (some t) db = refl

-- The index has the row of a conversation that the discovery shows, and else what it had.
find-upsert_index :
    (m : Matched) (q : ConversationKey) (index : List (ConversationKey × IndexedConversation))
    → same_conversation (key_of m) q ≡ false
    → (find (key_of m) (upsert_index m index) ≡ (
        if is_conversation_visible_in_discovery m
        then some (record { title = m.title; transcript_path = m.transcript_path })
        else find (key_of m) index))
      × (find q (upsert_index m index) ≡ find q index)
unfolding upsert_index
find-upsert_index m q index d = elim (Bool-cases (is_conversation_visible_in_discovery m)) [
  | inl s ↦ rw s (
    find-put_row (key_of m) _ index,
    find-append_other (key_of m) q _ (without (key_of m) index) d
        ∙ find-without_other (key_of m) q index d,
  )
  | inr s ↦ rw s (refl, refl)
]

moved_title :
    (k n : ConversationKey) (t : Text) (o : Option Text) (db : Database)
    → o ≡ some t
    → same_conversation k n ≡ false
    → (find n (move_title k n o db).title_overrides ≡ some t)
      × (find k (move_title k n o db).title_overrides ≡ none)
unfolding move_title
moved_title k n t none db e d = cc
moved_title k n t (some u) db e d =
    (find-without_other k n _ d ∙ find-put_row n u db.title_overrides ∙ e, find-without_same k _)

-- An adoption that was made puts the matched conversation, with its title and transcript, into the index
-- if the discovery shows it, and leaves what the index has of it if not, and every other row; and a title
-- override of the alias is then the native conversation's, and no longer the alias's. Not shown are the
-- conversations whose title has `#` behind blanks and the runs of `codex exec`, and no others.
pub adopt_moved :
    (k q : ConversationKey) (m : Matched) (at : ℕ) (db : Database) (t : Text)
    → (adopt_pending_conversation k m at db).1.adopted ≡ true
    → same_conversation k (record k { ref = m.ref }) ≡ false
    → find k db.title_overrides ≡ some t
    → same_conversation (key_of m) q ≡ false
    → let after = (adopt_pending_conversation k m at db).0 in
      (find (key_of m) after.index ≡ (
        if is_conversation_visible_in_discovery m
        then some (record { title = m.title; transcript_path = m.transcript_path })
        else find (key_of m) db.index))
      × (find q after.index ≡ find q db.index)
      × (find (record k { ref = m.ref }) after.title_overrides ≡ some t)
      × (find k after.title_overrides ≡ none)
      × ((is_conversation_visible_in_discovery m ≡ false) ↔ IsHidden m)
unfolding adopt_pending_conversation adopt_row
adopt_moved k q m at db t h d e other =
    let native : ConversationKey = record k { ref = m.ref } in
    let (p, found, same) = adopted_pending k m at (get_pending k db) db h in
    let moved = moved_title k native t (find k db.title_overrides) db e d in
    let index =
      ap (λ x. x.index) same
      ∙ ap (upsert_index m) (moved_index k native (find k db.title_overrides) db) in
    let (i, j) = find-upsert_index m q db.index other in
    (
      ap (find (key_of m)) index ∙ i,
      ap (find q) index ∙ j,
      ap (λ x. find native x.title_overrides) same ∙ moved.0,
      ap (λ x. find k x.title_overrides) same ∙ moved.1,
      visible_iff m,
    )
