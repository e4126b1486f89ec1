-- ===== src/Sessions/Timeline.antt =====
-- apps/server/src/sessions/timeline-merge.ts: the provider's transcript and what was seen live, as one
-- timeline. A time is the milliseconds of `Date.parse`, `none` where that is not finite; it is a
-- natural number. `Reading` has what the strings of the host language answer.
pub mod Index
pub mod Merge
mod Examples
use uber_coder.Prelude.{
  ℕ, ◌+◌, ◌-◌, ◌*◌, ◌/◌, Bool, true, false, not, ◌&&◌, ◌||◌, Option, none, some, List, [], ◌∷◌,
  ◌++◌, Text, filter, any, ltb, leb, ◌==◌, if◌then◌else◌, length, min, same_text, includes_text,
}

abbrev pub live_transcript_duplicate_window_ms : ℕ
live_transcript_duplicate_window_ms = 10 * 60 * 1000

abbrev pub short_exact_duplicate_window_ms : ℕ
short_exact_duplicate_window_ms = 30 * 1000

abbrev pub containment_duplicate_min_length : ℕ
containment_duplicate_min_length = 80

pub data Role : Type 0 where
  user assistant system tool status : Role

pub data Source : Type 0 where
  history_file live_output synthetic_status user_input : Source

pub data Lifecycle : Type 0 where
  durable pending status : Lifecycle

-- The number of a role, to tell roles apart.
abbrev pub role_number : Role → ℕ
role_number user = 0
role_number assistant = 1
role_number system = 2
role_number tool = 3
role_number Role.status = 4

pub record Message : Type 0 where
  pub role : Role
  pub source : Source
  pub timestamp : Text
  pub text : Text
  pub lifecycle : Lifecycle

-- `normalizeComparableText`, the removal of all but letters and digits, `trim`, `Date.parse`, and
-- whether `localeCompare` puts a text behind another.
pub record Reading : Type 0 where
  pub normalize : Text → Text
  pub compact : Text → Text
  pub trim : Text → Text
  pub parse : Text → Option ℕ
  pub is_after : Text → Text → Bool

pub record Comparable : Type 0 where
  pub role : Role
  pub timestamp_ms : Option ℕ
  pub comparable : Text
  pub compact : Text

abbrev pub same_role : Role → Role → Bool
same_role a b = role_number a == role_number b

-- `messagesShareTimelinePageRun`
unfoldable pub messages_share_timeline_page_run : Message → Message → Bool
messages_share_timeline_page_run previous next =
    same_role previous.role next.role
    && (same_role previous.role assistant || same_role previous.role user)

abbrev pub message_timestamp_ms : Reading → Message → Option ℕ
message_timestamp_ms r m = r.parse m.timestamp

-- `toComparableMessage` of a message with this normalized text; `none` where nothing is left.
unfoldable pub comparable_of : Reading → Message → Text → Option Comparable
comparable_of r m [] = none
comparable_of r m (c ∷ cs) = some (record {
  role = m.role;
  timestamp_ms = message_timestamp_ms r m;
  comparable = c ∷ cs;
  compact = r.compact (c ∷ cs);
})

unfoldable pub to_comparable_message : Reading → Message → Option Comparable
to_comparable_message r m = comparable_of r m (r.normalize m.text)

-- `timestampBucket`
abbrev pub timestamp_bucket : ℕ → ℕ
timestamp_bucket ms = ms / live_transcript_duplicate_window_ms

-- `|a - b| <= ms`
abbrev pub within_ms : ℕ → ℕ → ℕ → Bool
within_ms ms a b = leb (a - b) ms && leb (b - a) ms

abbrev pub both_within : ℕ → Option ℕ → Option ℕ → Bool
both_within ms none b = false
both_within ms (some a) none = false
both_within ms (some a) (some b) = within_ms ms a b

-- `comparableTextsMatch`
unfoldable pub comparable_texts_match : Comparable → Comparable → Bool
comparable_texts_match a b =
    let min_length = min (length a.comparable) (length b.comparable) in
    if same_text a.comparable b.comparable
    then leb containment_duplicate_min_length min_length
      || both_within short_exact_duplicate_window_ms a.timestamp_ms b.timestamp_ms
    else if ltb min_length containment_duplicate_min_length
    then false
    else includes_text a.compact b.compact || includes_text b.compact a.compact

abbrev pub times_are_near : Option ℕ → Option ℕ → Bool
times_are_near none b = true
times_are_near (some a) none = true
times_are_near (some a) (some b) = within_ms live_transcript_duplicate_window_ms a b

-- `comparableTimestampsAreNear`
abbrev pub comparable_timestamps_are_near : Comparable → Comparable → Bool
comparable_timestamps_are_near a b = times_are_near a.timestamp_ms b.timestamp_ms
