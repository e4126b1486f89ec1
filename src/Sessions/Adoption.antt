-- ===== src/Sessions/Adoption.antt =====
-- apps/server/src/sessions/pending-adoption.ts: a native conversation that adopts a new chat's alias, and of
-- the repositories under apps/server/src/db/repos what it calls. A conversation is known by its project,
-- provider and ref; a transaction is one step. A time is the milliseconds of its ISO text.
pub mod Visibility
pub mod Hidden
pub mod Aliases
pub mod Once
pub mod Moves
mod Examples
use uber_coder.Prelude.{
  ℕ, Bool, true, false, not, ◌&&◌, ◌||◌, Option, none, some, List, [], ◌∷◌, ◌++◌, Text, ltb,
  if◌then◌else◌, same_text, filter, or_else, lookup_key, is_some, starts_with,
}

pub record ConversationKey : Type 0 where
  pub project_slug : Text
  pub provider : Text
  pub ref : Text

abbrev pub same_conversation : ConversationKey → ConversationKey → Bool
same_conversation a b =
    same_text a.project_slug b.project_slug
    && same_text a.provider b.provider
    && same_text a.ref b.ref

pub data SessionStatus : Type 0 where
  bound ended other_status : SessionStatus

pub record BoundSession : Type 0 where
  pub id : Text
  pub conversation : ConversationKey
  pub resume_ref : Option Text
  pub title : Text
  pub updated_at : ℕ
  pub status : SessionStatus
  pub should_restore : Bool
  pub is_working : Bool

-- What a pending row's metadata says of its adoption.
pub record Adopted : Type 0 where
  pub conversation_ref : Text
  pub transcript_path : Option Text
  pub adopted_at : ℕ

pub record PendingRow : Type 0 where
  pub title : Text
  pub updated_at : ℕ
  pub bound_session_id : Option Text
  pub transcript_path : Option Text
  pub adopted : Option Adopted

pub record IndexedConversation : Type 0 where
  pub title : Text
  pub transcript_path : Option Text

pub record Database : Type 0 where
  pub sessions : List BoundSession
  -- The pending rows under their refs.
  pub pending : List (Text × PendingRow)
  pub title_overrides : List (ConversationKey × Text)
  pub index : List (ConversationKey × IndexedConversation)

-- A table whose key is a conversation.
abbrev pub find {ℓ} : {A : Type ℓ} → ConversationKey → List (ConversationKey × A) → Option A
find k [] = none
find k ((j, a) ∷ rest) = let other = find k rest in if same_conversation j k then some a else other

abbrev pub without {ℓ} :
    {A : Type ℓ} → ConversationKey → List (ConversationKey × A) → List (ConversationKey × A)
without k rows = filter (λ x. not (same_conversation x.0 k)) rows

abbrev pub put_row {ℓ} :
    {A : Type ℓ} → ConversationKey → A → List (ConversationKey × A) → List (ConversationKey × A)
put_row k a rows = without k rows ++ (k, a) ∷ []

-- `boundSessions.getById`
abbrev pub get_by_id : Text → List BoundSession → Option BoundSession
get_by_id i [] = none
get_by_id i (s ∷ rest) = let other = get_by_id i rest in if same_text s.id i then some s else other

abbrev pub owns : ConversationKey → BoundSession → Bool
owns k s = s.should_restore && same_conversation s.conversation k

-- The later of a session and another.
abbrev later : BoundSession → Option BoundSession → Option BoundSession
later s none = some s
later s (some t) = if ltb s.updated_at t.updated_at then some t else some s

-- `boundSessions.getRestorableByConversation`
abbrev pub get_restorable : ConversationKey → List BoundSession → Option BoundSession
get_restorable k [] = none
get_restorable k (s ∷ rest) =
    let others = get_restorable k rest in if owns k s then later s others else others

-- `boundSessions.upsert`, of a session that is in the table.
abbrev pub update_session : BoundSession → List BoundSession → List BoundSession
update_session s [] = []
update_session s (t ∷ rest) =
    let others = update_session s rest in if same_text t.id s.id then s ∷ others else t ∷ others

-- The id of a restorable session, which the row's own id is joined with.
abbrev joined_id : List BoundSession → Option Text → Option Text
joined_id sessions none = none
joined_id sessions (some i) = elim (get_by_id i sessions) [
  | none ↦ none
  | some s ↦ if s.should_restore then some i else none
]

abbrev titled : Option Text → Text → Text
titled none title = title
titled (some t) title = t

abbrev pub joined_row : ConversationKey → Database → Option PendingRow → Option PendingRow
joined_row k db none = none
joined_row k db (some p) = some (record p {
  title = titled (find k db.title_overrides) p.title;
  bound_session_id = joined_id db.sessions p.bound_session_id;
})

-- `pendingConversations.get`, for the project and provider that the row is of.
unfoldable pub get_pending : ConversationKey → Database → Option PendingRow
get_pending k db = joined_row k db (lookup_key k.ref db.pending)

-- `pendingConversations.put`, of a row that is in the table.
abbrev pub put_pending : Text → PendingRow → List (Text × PendingRow) → List (Text × PendingRow)
put_pending r p [] = []
put_pending r p ((j, q) ∷ rest) =
    let others = put_pending r p rest in if same_text j r then (j, p) ∷ others else (j, q) ∷ others

abbrev pub id_of : Option BoundSession → Option Text
id_of none = none
id_of (some s) = some s.id

abbrev pub same_id : Text → Option Text → Bool
same_id i none = false
same_id i (some j) = same_text i j
