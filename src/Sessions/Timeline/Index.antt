-- ===== src/Sessions/Timeline/Index.antt =====
-- The index of a transcript by role and time, and the search of one live message in it.
pub mod Search
use uber_coder.Prelude.{
  ℕ, ◌+◌, ◌-◌, Bool, true, false, ◌&&◌, Option, none, some, List, [], ◌∷◌, ◌++◌, any, ◌==◌,
  if◌then◌else◌, is_some,
}
use uber_coder.Sessions.Timeline.{
  Role, role_number, Message, Reading, Comparable, to_comparable_message, timestamp_bucket,
  comparable_texts_match, comparable_timestamps_are_near,
}

-- `map.get(key) ?? []` of a map from numbers to lists.
abbrev pub list_at {ℓ} : {A : Type ℓ} → ℕ → List (ℕ × List A) → List A
list_at k [] = []
list_at k ((j, xs) ∷ m) = if j == k then xs else list_at k m

-- To the list under the key, or a new list of one.
abbrev pub append_at {ℓ} : {A : Type ℓ} → ℕ → A → List (ℕ × List A) → List (ℕ × List A)
append_at k a [] = (k, a ∷ []) ∷ []
append_at k a ((j, xs) ∷ m) =
    let rest = append_at k a m in if j == k then (j, xs ++ a ∷ []) ∷ m else (j, xs) ∷ rest

-- `roleBuckets`, under the number of the role.
abbrev pub buckets_of : ℕ → List (ℕ × List (ℕ × List Comparable)) → List (ℕ × List Comparable)
buckets_of r m = list_at r m

abbrev pub put_buckets :
    ℕ
    → List (ℕ × List Comparable)
    → List (ℕ × List (ℕ × List Comparable))
    → List (ℕ × List (ℕ × List Comparable))
put_buckets r bs [] = (r, bs) ∷ []
put_buckets r bs ((j, xs) ∷ m) =
    let rest = put_buckets r bs m in if j == r then (j, bs) ∷ m else (j, xs) ∷ rest

pub record TranscriptIndex : Type 0 where
  pub bucketed_by_role : List (ℕ × List (ℕ × List Comparable))
  pub untimed_by_role : List (ℕ × List Comparable)

unfoldable pub empty_index : TranscriptIndex
empty_index = record { bucketed_by_role = []; untimed_by_role = [] }

-- One round of the loop of `buildTranscriptMessageIndex`, for a message with text.
unfoldable pub add_at : Option ℕ → Comparable → TranscriptIndex → TranscriptIndex
add_at none c index = record index {
  untimed_by_role = append_at (role_number c.role) c index.untimed_by_role;
}
add_at (some ms) c index =
    let buckets = buckets_of (role_number c.role) index.bucketed_by_role in
    record index {
      bucketed_by_role =
          put_buckets (role_number c.role) (append_at (timestamp_bucket ms) c buckets)
            index.bucketed_by_role;
    }

unfoldable pub add_comparable : Option Comparable → TranscriptIndex → TranscriptIndex
add_comparable none index = index
add_comparable (some c) index = add_at c.timestamp_ms c index

-- `buildTranscriptMessageIndex`, from an index of the messages before.
unfoldable pub build_from : Reading → List Message → TranscriptIndex → TranscriptIndex
build_from r [] index = index
build_from r (m ∷ ms) index = build_from r ms (add_comparable (to_comparable_message r m) index)

unfoldable pub build_transcript_message_index : Reading → List Message → TranscriptIndex
build_transcript_message_index r ms = build_from r ms empty_index

-- The bucket before; there is none before the first.
unfoldable pub bucket_before : ℕ → List (ℕ × List Comparable) → List Comparable
bucket_before b m = if b == 0 then [] else list_at (b - 1) m

-- `getTranscriptCandidates`
unfoldable pub candidates_at :
    Option ℕ → List (ℕ × List Comparable) → List Comparable → List Comparable
candidates_at none buckets untimed = untimed
candidates_at (some ms) buckets untimed =
    let b = timestamp_bucket ms in
    bucket_before b buckets ++ (list_at b buckets ++ (list_at (b + 1) buckets ++ untimed))

unfoldable pub get_transcript_candidates : TranscriptIndex → Comparable → List Comparable
get_transcript_candidates index live =
    candidates_at live.timestamp_ms (buckets_of (role_number live.role) index.bucketed_by_role)
      (list_at (role_number live.role) index.untimed_by_role)

abbrev pub matches : Comparable → Comparable → Bool
matches live c = comparable_timestamps_are_near live c && comparable_texts_match live c

unfoldable pub comparable_is_in : Option Comparable → TranscriptIndex → Bool
comparable_is_in none index = false
comparable_is_in (some live) index = any (matches live) (get_transcript_candidates index live)

-- `liveMessageIsInTranscript`
unfoldable pub live_message_is_in_transcript : Reading → Message → TranscriptIndex → Bool
live_message_is_in_transcript r m index = comparable_is_in (to_comparable_message r m) index
