-- ===== src/Sessions/Adoption/Aliases.antt =====
-- The adoption of a pending alias and the end of its session, of apps/server/src/sessions/pending-adoption.ts.
use uber_coder.Prelude.{
  ℕ, Bool, true, false, not, ◌&&◌, ◌||◌, Option, none, some, List, [], ◌∷◌, ◌++◌, Text,
  if◌then◌else◌, same_text, or_else, is_some, starts_with,
}
use uber_coder.Sessions.Adoption.{
  ConversationKey, ended, BoundSession, PendingRow, Database, find, without, put_row, get_by_id,
  get_restorable, update_session, get_pending, put_pending, id_of, same_id,
}
use uber_coder.Sessions.Adoption.Visibility.{Matched, upsert_index}

-- Whether the native conversation has an owner other than the alias's session.
abbrev pub is_taken : Option BoundSession → Option Text → Bool
is_taken none id = false
is_taken (some owner) id = not (same_id owner.id id)

-- The title override, if there is one, goes to the native conversation.
unfoldable pub move_title : ConversationKey → ConversationKey → Option Text → Database → Database
move_title pending native none db = db
move_title pending native (some title) db = record db {
  title_overrides = without pending (put_row native title db.title_overrides);
}

-- The alias's session, by the id of its row or by its conversation.
unfoldable pub session_of : ConversationKey → Option Text → Database → Option BoundSession
session_of k (some i) db = get_by_id i db.sessions
session_of k none db = get_restorable k db.sessions

abbrev rebound : ConversationKey → Text → ℕ → BoundSession → BoundSession
rebound native title at s = record s {
  conversation = record s.conversation { ref = native.ref };
  resume_ref = some native.ref;
  title = title;
  updated_at = at;
}

abbrev pub rebound_session :
    ConversationKey → ConversationKey → Text → ℕ → Option BoundSession → Option BoundSession
rebound_session pending native title at none = none
rebound_session pending native title at (some s) =
    if s.should_restore && same_text s.conversation.ref pending.ref
    then some (rebound native title at s)
    else none

abbrev pub save_session : Option BoundSession → List BoundSession → List BoundSession
save_session none sessions = sessions
save_session (some s) sessions = update_session s sessions

abbrev pub adopted_row : PendingRow → Matched → ℕ → PendingRow
adopted_row p m at = record p {
  bound_session_id = none;
  updated_at = at;
  transcript_path = m.transcript_path;
  adopted =
      some
        (record { conversation_ref = m.ref; transcript_path = m.transcript_path; adopted_at = at });
}

-- The adoption, once nothing forbids it.
unfoldable pub adopt_row :
    ConversationKey
    → ConversationKey
    → Matched
    → ℕ
    → PendingRow
    → Database
    → Database × Option BoundSession
adopt_row pending native m at p db =
    let moved = move_title pending native (find pending db.title_overrides) db in
    let session =
      rebound_session pending native m.title at (session_of pending p.bound_session_id moved) in
    (
      record moved {
        index = upsert_index m moved.index;
        sessions = save_session session moved.sessions;
        pending = put_pending pending.ref (adopted_row p m at) moved.pending;
      },
      session,
    )

pub record AdoptResult : Type 0 where
  pub adopted : Bool
  pub rebound_session : Option BoundSession

-- An alias that was adopted, or a native conversation that another session owns.
unfoldable pub is_refused : ConversationKey → Matched → PendingRow → Database → Bool
is_refused k m p db =
    is_some p.adopted
    || is_taken (get_restorable (record k { ref = m.ref }) db.sessions)
        (or_else p.bound_session_id (id_of (get_restorable k db.sessions)))

abbrev pub no_adoption : AdoptResult
no_adoption = record { adopted = false; rebound_session = none }

unfoldable pub adopt_pending :
    ConversationKey → Matched → ℕ → Option PendingRow → Database → Database × AdoptResult
adopt_pending k m at none db = (db, no_adoption)
adopt_pending k m at (some p) db =
    let done = adopt_row k (record k { ref = m.ref }) m at p db in
    if is_refused k m p db
    then (db, no_adoption)
    else (done.0, record { adopted = true; rebound_session = done.1 })

-- `adoptPendingConversation`
unfoldable pub adopt_pending_conversation :
    ConversationKey → Matched → ℕ → Database → Database × AdoptResult
adopt_pending_conversation k m at db = adopt_pending k m at (get_pending k db) db

-- `pending:`
abbrev pending_prefix : Text
pending_prefix = 112 ∷ 101 ∷ 110 ∷ 100 ∷ 105 ∷ 110 ∷ 103 ∷ 58 ∷ []

-- `boundSessions.upsert`
abbrev pub upsert_session : BoundSession → List BoundSession → List BoundSession
upsert_session s sessions =
    if is_some (get_by_id s.id sessions) then update_session s sessions else sessions ++ s ∷ []

unfoldable pub release_pending :
    Text → ℕ → Option PendingRow → List (Text × PendingRow) → List (Text × PendingRow)
release_pending r at none rows = rows
release_pending r at (some p) rows =
    put_pending r (record p { bound_session_id = none; updated_at = at }) rows

-- The alias's row, if the conversation is one.
abbrev alias_row : BoundSession → Database → Option PendingRow
alias_row s db =
    if starts_with pending_prefix s.conversation.ref then get_pending s.conversation db else none

-- `clearPendingRestoreBinding`
unfoldable pub clear_pending_restore_binding : BoundSession → ℕ → Database → Database × BoundSession
clear_pending_restore_binding s at db =
    let ended_session : BoundSession = record s {
      status = ended;
      should_restore = false;
      updated_at = at;
      is_working = false;
    } in
    (
      record db {
        pending = release_pending s.conversation.ref at (alias_row s db) db.pending;
        sessions = upsert_session ended_session db.sessions;
      },
      ended_session,
    )
