-- ===== src/Sessions/Adoption/Examples.antt =====
-- The theorems on adoption, applied to a new chat with a title of its own.
use uber_coder.Prelude.{◌≡◌, ◌↔◌, refl, true, false, none, some, [], ◌∷◌, if◌then◌else◌, codes}
use uber_coder.Sessions.Adoption.{
  ConversationKey, BoundSession, bound, PendingRow, Database, get_pending, find,
}
use uber_coder.Sessions.Adoption.Aliases.{
  no_adoption, adopt_pending_conversation, adopt_pending, is_refused,
}
use uber_coder.Sessions.Adoption.Visibility.{
  Matched, is_conversation_visible_in_discovery, is_system_invocation_conversation_title,
  is_codex_exec_invocation_conversation,
}
use uber_coder.Sessions.Adoption.Hidden.{IsHidden}
use uber_coder.Sessions.Adoption.Once.{adopt_once}
use uber_coder.Sessions.Adoption.Moves.{adopt_moved}

abbrev alias : ConversationKey
alias = record { project_slug = 1 ∷ []; provider = 2 ∷ []; ref = 3 ∷ [] }

abbrev native : ConversationKey
native = record alias { ref = 4 ∷ [] }

abbrev chat : BoundSession
chat = record {
  id = 9 ∷ [];
  conversation = alias;
  resume_ref = none;
  title = 5 ∷ [];
  updated_at = 10;
  status = bound;
  should_restore = true;
  is_working = true;
}

abbrev row : PendingRow
row = record {
  title = 5 ∷ [];
  updated_at = 10;
  bound_session_id = some (9 ∷ []);
  transcript_path = none;
  adopted = none;
}

abbrev database : Database
database = record {
  sessions = chat ∷ [];
  pending = (3 ∷ [], row) ∷ [];
  title_overrides = (alias, 6 ∷ []) ∷ [];
  index = [];
}

abbrev matched : Matched
matched = record {
  project_slug = 1 ∷ [];
  provider = 2 ∷ [];
  ref = 4 ∷ [];
  title = 7 ∷ [];
  transcript_path = some (8 ∷ []);
  originator = none;
  source = none;
}

-- A run of `codex exec` is not shown, nor is a title behind blanks that begins with `#`.
hidden :
    (is_conversation_visible_in_discovery
        (record matched { provider = codes "codex"; source = some (codes "exec") })
      ≡ false)
    × (is_conversation_visible_in_discovery (record matched { title = codes "  # AGENTS" }) ≡ false)
    × (is_conversation_visible_in_discovery matched ≡ true)
unfolding is_conversation_visible_in_discovery is_system_invocation_conversation_title
    is_codex_exec_invocation_conversation
hidden = (refl, refl, refl)

adopted : (adopt_pending_conversation alias matched 20 database).1.adopted ≡ true
unfolding adopt_pending_conversation adopt_pending get_pending is_refused
adopted = refl

adopt_once_example :
    adopt_pending_conversation alias
      (record matched { ref = 5 ∷ [] })
      30
      (adopt_pending_conversation alias matched 20 database).0
    ≡ ((adopt_pending_conversation alias matched 20 database).0, no_adoption)
adopt_once_example =
    adopt_once alias matched (record matched { ref = 5 ∷ [] }) 20 30 database adopted

adopt_moved_example :
    let after = (adopt_pending_conversation alias matched 20 database).0 in
    (find native after.index ≡ (
      if is_conversation_visible_in_discovery matched
      then some (record { title = matched.title; transcript_path = matched.transcript_path })
      else none))
    × (find alias after.index ≡ none)
    × (find native after.title_overrides ≡ some (6 ∷ []))
    × (find alias after.title_overrides ≡ none)
    × ((is_conversation_visible_in_discovery matched ≡ false) ↔ IsHidden matched)
adopt_moved_example = adopt_moved alias alias matched 20 database (6 ∷ []) adopted refl refl refl
