-- ===== src/Sessions/Timeline/Merge/Copies.antt =====
-- A live message is left out exactly if the whole transcript has a copy of it: neither the index nor
-- the window of relevant messages makes a difference.
use uber_coder.Prelude.{
  ℕ, ◌≤◌, ◌≡◌, refl, ap, ◌∙◌, Bool, false, not, ◌||◌, Option, none, some, List, [], ◌∷◌, any,
  filter, arith, Bool-cases, inl, inr, Text,
}
use uber_coder.Sessions.Timeline.{
  Message, Reading, Comparable, comparable_of, to_comparable_message, message_timestamp_ms,
}
use uber_coder.Sessions.Timeline.Index.{
  build_transcript_message_index, live_message_is_in_transcript,
}
use uber_coder.Sessions.Timeline.Index.Search.{
  test, test_some, times_allow, is_copy, has_copy, live_message_is_in_transcript-has_copy,
}
use uber_coder.Sessions.Timeline.Merge.{
  earlier, earliest_from, earliest_live_timestamp_ms, is_relevant,
  filter_transcript_backed_live_messages,
}

any-filter :
    {A : Type 0} (p q : A → Bool) (xs : List A)
    → ((x : A) → q x ≡ false → p x ≡ false)
    → any p (filter q xs) ≡ any p xs
any-filter p q [] h = refl
any-filter p q (x ∷ xs) h = elim (Bool-cases (q x)) [
  | inl e ↦ rw e (ap (λ b. p x || b) (any-filter p q xs h))
  | inr e ↦ rw (e, h x e) (any-filter p q xs h)
]

-- The time is not before the earliest one.
abbrev NotBefore : Option ℕ → Option ℕ → Type 0
NotBefore e none = Unit
NotBefore none (some t) = ⊥
NotBefore (some e) (some t) = e ≤ t

abbrev AllNotBefore : Reading → Option ℕ → List Message → Type 0
AllNotBefore r e [] = Unit
AllNotBefore r e (m ∷ ms) = NotBefore e (message_timestamp_ms r m) × AllNotBefore r e ms

earlier-left : (e o x : Option ℕ) → NotBefore e x → NotBefore (earlier e o) x
earlier-left e none x h = h
earlier-left none (some t) none h = tt
earlier-left none (some t) (some y) h = absurd h
earlier-left (some e) (some t) none h = ground arith
earlier-left (some e) (some t) (some y) h = ground arith

earlier-right : (e o : Option ℕ) → NotBefore (earlier e o) o
earlier-right e none = tt
earlier-right none (some t) = omega arith
earlier-right (some e) (some t) = ground arith

earliest_from-keeps :
    (r : Reading) (e x : Option ℕ) (ms : List Message)
    → NotBefore e x
    → NotBefore (earliest_from r e ms) x
unfolding earliest_from
earliest_from-keeps r e x [] h = h
earliest_from-keeps r e x (m ∷ ms) h =
    earliest_from-keeps r (earlier e (message_timestamp_ms r m)) x ms
      (earlier-left e (message_timestamp_ms r m) x h)

earliest_from-all :
    (r : Reading) (e : Option ℕ) (ms : List Message) → AllNotBefore r (earliest_from r e ms) ms
unfolding earliest_from
earliest_from-all r e [] = tt
earliest_from-all r e (m ∷ ms) = (
  earliest_from-keeps r (earlier e (message_timestamp_ms r m)) (message_timestamp_ms r m) ms
      (earlier-right e (message_timestamp_ms r m)),
  earliest_from-all r (earlier e (message_timestamp_ms r m)) ms,
)

-- A message outside the window of relevance is no copy of a live one.
irrelevant-times :
    (e a b : Option ℕ) → NotBefore e a → is_relevant e b ≡ false → times_allow a b ≡ false
irrelevant-times none a b n h = cc
irrelevant-times (some e) a none n h = cc
irrelevant-times (some e) none (some u) n h = refl
irrelevant-times (some e) (some t) (some u) n h = ground arith

has_copy-relevant :
    (r : Reading) (e : Option ℕ) (live : Message) (transcript : List Message)
    → NotBefore e (message_timestamp_ms r live)
    → has_copy r
        (to_comparable_message r live)
        (filter (λ m. is_relevant e (message_timestamp_ms r m)) transcript)
      ≡ has_copy r (to_comparable_message r live) transcript
unfolding to_comparable_message comparable_of
has_copy-relevant r e live transcript n = each (r.normalize live.text)
  where
    none_copied :
        (l : Comparable) (m : Message) (t : Text)
        → l.timestamp_ms ≡ message_timestamp_ms r live
        → is_relevant e (message_timestamp_ms r m) ≡ false
        → test_some (is_copy l) (comparable_of r m t) ≡ false
    none_copied l m [] q h = refl
    none_copied l m (x ∷ t) q h =
        let f =
          ap (λ o. times_allow o (message_timestamp_ms r m)) q
          ∙ irrelevant-times e (message_timestamp_ms r live) (message_timestamp_ms r m) n h in
        rw f (ground arith)

    each :
        (t : Text)
        → has_copy r
            (comparable_of r live t)
            (filter (λ m. is_relevant e (message_timestamp_ms r m)) transcript)
          ≡ has_copy r (comparable_of r live t) transcript
    each [] = refl
    each (x ∷ t) =
        let l : Comparable = record {
          role = live.role;
          timestamp_ms = message_timestamp_ms r live;
          comparable = x ∷ t;
          compact = r.compact (x ∷ t);
        } in
        any-filter (test r (is_copy l)) (λ m. is_relevant e (message_timestamp_ms r m)) transcript
          (λ m h. none_copied l m (r.normalize m.text) refl h)

filter-copies :
    (r : Reading) (e : Option ℕ) (live transcript : List Message)
    → AllNotBefore r e live
    → filter
        (λ m. not (
          live_message_is_in_transcript r m (
            build_transcript_message_index r
              (filter (λ x. is_relevant e (message_timestamp_ms r x)) transcript))))
        live
      ≡ filter (λ m. not (has_copy r (to_comparable_message r m) transcript)) live
filter-copies r e [] transcript h = refl
filter-copies r e (m ∷ live) transcript h =
    rw
      (
        live_message_is_in_transcript-has_copy r
              (filter (λ x. is_relevant e (message_timestamp_ms r x)) transcript) m
            ∙ has_copy-relevant r e m transcript h.0,
        filter-copies r e live transcript h.1,
      )
      refl

-- The live messages that stay are those of which the whole transcript has no copy, in their order. A
-- copy has the same role, the same text by the comparison of texts, and a time within ten minutes, or
-- no time.
pub filter_transcript_backed_live_messages-has_copy :
    (r : Reading) (live transcript : List Message)
    → filter_transcript_backed_live_messages r live transcript
      ≡ filter (λ m. not (has_copy r (to_comparable_message r m) transcript)) live
unfolding filter_transcript_backed_live_messages earliest_live_timestamp_ms
filter_transcript_backed_live_messages-has_copy r live transcript =
    filter-copies r (earliest_from r none live) live transcript (earliest_from-all r none live)
