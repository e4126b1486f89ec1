-- ===== src/Sessions/Timeline/Merge.antt =====
-- The merge itself: `mergeTimelineMessages` and what it is made of. The key of `dedupeTimelineMessages`
-- is a text of source, time and role with colons between; sources and roles have no colon in them, so
-- two keys are the same exactly if the three parts are.
pub mod Copies
pub mod Dedupe
use uber_coder.Prelude.{
  ℕ, ◌+◌, Bool, true, false, not, ◌&&◌, ◌||◌, Option, none, some, List, [], ◌∷◌, ◌++◌, Text, filter,
  any, ltb, leb, ◌==◌, if◌then◌else◌, is_some, is_empty, same_text,
}
use uber_coder.Sessions.Timeline.{
  Role, Source, Lifecycle, user, assistant, tool, history_file, live_output, synthetic_status,
  user_input, role_number, same_role, Message, Reading, message_timestamp_ms,
  live_transcript_duplicate_window_ms,
}
use uber_coder.Sessions.Timeline.Index.{
  build_transcript_message_index, live_message_is_in_transcript,
}

abbrev pub source_number : Source → ℕ
source_number history_file = 0
source_number live_output = 1
source_number synthetic_status = 2
source_number user_input = 3

pub record Key : Type 0 where
  pub source : ℕ
  pub timestamp : Text
  pub role : ℕ

abbrev pub key_of : Message → Key
key_of m = record {
  source = source_number m.source;
  timestamp = m.timestamp;
  role = role_number m.role;
}

abbrev pub same_key : Key → Key → Bool
same_key a b = (a.source == b.source) && same_text a.timestamp b.timestamp && (a.role == b.role)

-- `groups.get(key)`, empty for a new key, and `group.push`.
abbrev pub group_at : Key → List (Key × List Message) → List Message
group_at k [] = []
group_at k ((j, ms) ∷ groups) = if same_key j k then ms else group_at k groups

abbrev pub add_to_group : Key → Message → List (Key × List Message) → List (Key × List Message)
add_to_group k m [] = (k, m ∷ []) ∷ []
add_to_group k m ((j, ms) ∷ groups) =
    let rest = add_to_group k m groups in
    if same_key j k then (j, ms ++ m ∷ []) ∷ groups else (j, ms) ∷ rest

abbrev pub same_trimmed : Reading → Message → Message → Bool
same_trimmed r m x = same_text (r.trim x.text) (r.trim m.text)

-- `dedupeTimelineMessages`, with the groups of the messages before.
unfoldable pub dedupe_from : Reading → List (Key × List Message) → List Message → List Message
dedupe_from r groups [] = []
dedupe_from r groups (m ∷ ms) =
    let kept = m ∷ dedupe_from r (add_to_group (key_of m) m groups) ms in
    let skipped = dedupe_from r groups ms in
    if any (same_trimmed r m) (group_at (key_of m) groups) then skipped else kept

unfoldable pub dedupe_timeline_messages : Reading → List Message → List Message
dedupe_timeline_messages r = dedupe_from r []

abbrev pub earlier : Option ℕ → Option ℕ → Option ℕ
earlier e none = e
earlier none (some t) = some t
earlier (some e) (some t) = if ltb t e then some t else some e

-- The loop of `earliestLiveTimestampMs`.
unfoldable pub earliest_from : Reading → Option ℕ → List Message → Option ℕ
earliest_from r e [] = e
earliest_from r e (m ∷ ms) = earliest_from r (earlier e (message_timestamp_ms r m)) ms

unfoldable pub earliest_live_timestamp_ms : Reading → List Message → Option ℕ
earliest_live_timestamp_ms r = earliest_from r none

-- `timestampMs >= earliest - window`, without going below 0.
abbrev pub is_relevant : Option ℕ → Option ℕ → Bool
is_relevant none o = true
is_relevant (some e) none = true
is_relevant (some e) (some t) = leb e (t + live_transcript_duplicate_window_ms)

-- `filterTranscriptBackedLiveMessages`
unfoldable pub filter_transcript_backed_live_messages :
    Reading → List Message → List Message → List Message
filter_transcript_backed_live_messages r live transcript =
    let earliest = earliest_live_timestamp_ms r live in
    let relevant = filter (λ m. is_relevant earliest (message_timestamp_ms r m)) transcript in
    let index = build_transcript_message_index r relevant in
    filter (λ m. not (live_message_is_in_transcript r m index)) live

-- The loop of `latestMessageByTimestamp`: the time of the latest message so far.
abbrev pub later : Option ℕ → Option ℕ → Option ℕ
later e none = e
later none (some t) = some t
later (some e) (some t) = if ltb e t then some t else some e

unfoldable pub latest_from : Reading → Option ℕ → List Message → Option ℕ
latest_from r e [] = e
latest_from r e (m ∷ ms) = latest_from r (later e (message_timestamp_ms r m)) ms

abbrev pub is_status : Lifecycle → Bool
is_status Lifecycle.status = true
is_status Lifecycle.pending = false
is_status Lifecycle.durable = false

abbrev pub is_later : Option ℕ → Option ℕ → Bool
is_later none o = true
is_later (some l) none = false
is_later (some l) (some t) = ltb l t

-- `isPendingAfterTranscript`
unfoldable pub is_pending_after_transcript : Reading → Option ℕ → Message → Bool
is_pending_after_transcript r latest m =
    if is_status m.lifecycle then false else is_later latest (message_timestamp_ms r m)

-- `filterPendingLiveUserMessagesAfterTranscript`
unfoldable pub filter_pending_live_user_messages : Reading → Option ℕ → List Message → List Message
filter_pending_live_user_messages r latest = filter λ m.
    same_role m.role user
    && (source_number m.source == source_number user_input)
    && is_pending_after_transcript r latest m

-- `filterUserVisibleMessages`
unfoldable pub filter_user_visible_messages : List Message → List Message
filter_user_visible_messages = filter λ m. same_role m.role user || same_role m.role assistant

-- A stable sort by time.
abbrev pub insert_message : Reading → Message → List Message → List Message
insert_message r m [] = m ∷ []
insert_message r m (x ∷ xs) =
    let rest = insert_message r m xs in
    if r.is_after m.timestamp x.timestamp then x ∷ rest else m ∷ x ∷ xs

unfoldable pub sort_by_timestamp : Reading → List Message → List Message
sort_by_timestamp r [] = []
sort_by_timestamp r (m ∷ ms) = insert_message r m (sort_by_timestamp r ms)

-- `mergeTimelineMessages`
unfoldable pub merge_timeline_messages :
    Reading → List Message → List Message → List Message → List Message
merge_timeline_messages r all_messages visible live =
    let has_transcript =
      any (λ m. same_role m.role user || same_role m.role assistant || same_role m.role tool)
        all_messages in
    let fresh = filter_transcript_backed_live_messages r live visible in
    let latest = latest_from r none visible in
    let extra =
      if has_transcript
      then filter_pending_live_user_messages r latest fresh
      else filter_user_visible_messages live in
    if is_empty live
    then dedupe_timeline_messages r visible
    else sort_by_timestamp r (dedupe_timeline_messages r (visible ++ extra))
