-- ===== src/Sessions/Timeline/Examples.antt =====
-- The theorems on the timeline, applied to a transcript of two messages and two live ones.
use uber_coder.Prelude.{ℕ, ◌≡◌, false, not, Option, none, some, List, [], ◌∷◌, Text, filter}
use uber_coder.Sessions.Timeline.{
  Role, user, assistant, Source, history_file, live_output, durable, Message, Reading,
  to_comparable_message,
}
use uber_coder.Sessions.Timeline.Index.Search.{has_copy}
use uber_coder.Sessions.Timeline.Merge.{
  filter_transcript_backed_live_messages, dedupe_timeline_messages,
}
use uber_coder.Sessions.Timeline.Merge.Copies.{filter_transcript_backed_live_messages-has_copy}
use uber_coder.Sessions.Timeline.Merge.Dedupe.{keep_first, dedupe_timeline_messages-keep_first}

-- Times are texts of one number.
abbrev plain : Reading
plain = record {
  normalize = λ t. t;
  compact = λ t. t;
  trim = λ t. t;
  parse = number;
  is_after = λ a b. false;
}
  where
    number : Text → Option ℕ
    number [] = none
    number (n ∷ t) = some n

abbrev said : Role → Source → ℕ → Text → Message
said role source at text = record {
  role = role;
  source = source;
  timestamp = at ∷ [];
  text = text;
  lifecycle = durable;
}

abbrev transcript : List Message
transcript =
    said user history_file 1000 (104 ∷ 105 ∷ [])
    ∷ said assistant history_file 700000 (111 ∷ 107 ∷ [])
    ∷ []

abbrev live : List Message
live =
    said user live_output 9000 (104 ∷ 105 ∷ [])
    ∷ said assistant live_output 100000 (111 ∷ 107 ∷ [])
    ∷ []

filter_transcript_backed_live_messages-has_copy_example :
    filter_transcript_backed_live_messages plain live transcript
    ≡ filter (λ m. not (has_copy plain (to_comparable_message plain m) transcript)) live
filter_transcript_backed_live_messages-has_copy_example =
    filter_transcript_backed_live_messages-has_copy plain live transcript

dedupe_timeline_messages-keep_first_example :
    dedupe_timeline_messages plain live ≡ keep_first plain [] live
dedupe_timeline_messages-keep_first_example = dedupe_timeline_messages-keep_first plain live
