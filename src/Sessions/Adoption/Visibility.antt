-- ===== src/Sessions/Adoption/Visibility.antt =====
-- Which conversations the discovery shows, of apps/server/src/lib/conversation-visibility.ts, and the write to
-- the index, which apps/server/src/db/repos/conversation-index.ts makes for these alone.
use uber_coder.Prelude.{
  ℕ, Bool, false, not, ◌&&◌, ◌||◌, Option, none, some, List, [], ◌∷◌, Text, any, ◌==◌, leb,
  if◌then◌else◌, same_text, starts_with, codes,
}
use uber_coder.Sessions.Adoption.{ConversationKey, IndexedConversation, put_row}

-- The fields of a `ConversationSummary` that an adoption reads; `originator` and `source` are those of its
-- metadata, where they are texts.
pub record Matched : Type 0 where
  pub project_slug : Text
  pub provider : Text
  pub ref : Text
  pub title : Text
  pub transcript_path : Option Text
  pub originator : Option Text
  pub source : Option Text

-- What `trimStart` drops: white space and the ends of lines.
abbrev pub is_white_space : ℕ → Bool
is_white_space c =
    (leb 9 c && leb c 13)
    || (leb 8192 c && leb c 8202)
    || any (λ w. w == c) (32 ∷ 160 ∷ 5760 ∷ 8232 ∷ 8233 ∷ 8239 ∷ 8287 ∷ 12288 ∷ 65279 ∷ [])

abbrev pub trim_start : Text → Text
trim_start [] = []
trim_start (c ∷ t) = let rest = trim_start t in if is_white_space c then rest else c ∷ t

-- `isSystemInvocationConversationTitle`
unfoldable pub is_system_invocation_conversation_title : Text → Bool
is_system_invocation_conversation_title title = starts_with (codes "#") (trim_start title)

abbrev pub is_text : Text → Option Text → Bool
is_text t none = false
is_text t (some u) = same_text t u

-- `isCodexExecInvocationConversation`
unfoldable pub is_codex_exec_invocation_conversation : Matched → Bool
is_codex_exec_invocation_conversation m =
    if not (same_text m.provider (codes "codex"))
    then false
    else is_text (codes "codex_exec") m.originator || is_text (codes "exec") m.source

-- `isConversationVisibleInDiscovery`
unfoldable pub is_conversation_visible_in_discovery : Matched → Bool
is_conversation_visible_in_discovery m =
    not (is_system_invocation_conversation_title m.title)
    && not (is_codex_exec_invocation_conversation m)

abbrev pub key_of : Matched → ConversationKey
key_of m = record { project_slug = m.project_slug; provider = m.provider; ref = m.ref }

-- `conversationIndex.upsert`
unfoldable pub upsert_index :
    Matched
    → List (ConversationKey × IndexedConversation)
    → List (ConversationKey × IndexedConversation)
upsert_index m index =
    if not (is_conversation_visible_in_discovery m)
    then index
    else put_row (key_of m) (record { title = m.title; transcript_path = m.transcript_path }) index
