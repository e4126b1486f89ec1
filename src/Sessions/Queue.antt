-- ===== src/Sessions/Queue.antt =====
-- `InputQueue` of apps/server/src/sessions/input-queue.ts: the journal of the messages that a person
-- sent. The rows of the `meta` table under its three key prefixes are three maps; an id is a number.
-- The images that `queuedInputSummary` takes out of a text are left to `display`.
pub mod Journal
mod Examples
use uber_coder.Prelude.{
  ℕ, ◌+◌, Bool, true, false, not, ◌&&◌, ◌||◌, Option, none, some, List, [], ◌∷◌, ◌++◌, map, Text,
  filter, any, ◌==◌, if◌then◌else◌,
}

pub data InputState : Type 0 where
  queued submitting submitted failed cancelled : InputState

pub data DeliveryMode : Type 0 where
  turn steer : DeliveryMode

pub record QueuedInput : Type 0 where
  pub request_id : ℕ
  pub text : Text
  pub requested_at : Text
  pub state : InputState
  pub reason : Text
  pub turn_id : Option Text
  pub delivery_mode : Option DeliveryMode
  pub not_sent_since : Option Text

-- By session, and by request.
pub record Meta : Type 0 where
  pub inputs : ℕ → ℕ → Option QueuedInput
  pub pending : ℕ → Option (List ℕ)
  pub revisions : ℕ → Option ℕ

pub new_meta : Meta
new_meta = record { inputs = λ s r. none; pending = λ s. none; revisions = λ s. none }

-- An upsert of one row.
abbrev pub with_row {ℓ} : {A : Type ℓ} → ℕ → A → (ℕ → A) → ℕ → A
with_row k a f j = if j == k then a else f j

-- `pending`
unfoldable pub is_pending : InputState → Bool
is_pending queued = true
is_pending submitting = true
is_pending failed = true
is_pending submitted = false
is_pending cancelled = false

unfoldable pub is_cancelled : Option QueuedInput → Bool
is_cancelled none = false
is_cancelled (some r) = elim r.state [ cancelled ↦ true | _ ↦ false ]

unfoldable pub revision : ℕ → Meta → ℕ
revision s m = elim (m.revisions s) [ none ↦ 0 | some n ↦ n ]

-- `advancedRevision`
unfoldable pub advance_revision : ℕ → Meta → Meta
advance_revision s m = record m { revisions = with_row s (some (revision s m + 1)) m.revisions }

unfoldable pub pending_ids : ℕ → Meta → List ℕ
pending_ids s m = elim (m.pending s) [ none ↦ [] | some ids ↦ ids ]

abbrev pub includes : ℕ → List ℕ → Bool
includes i = any λ j. j == i

-- The pending ids behind a `put`.
unfoldable pub ids_after : QueuedInput → List ℕ → List ℕ
ids_after r ids =
    let p = is_pending r.state in
    let kept = filter (λ i. not (i == r.request_id) || p) ids in
    if p && not (includes r.request_id kept) then kept ++ r.request_id ∷ [] else kept

unfoldable pub put : ℕ → QueuedInput → Meta → Meta
put s r m = if is_cancelled (m.inputs s r.request_id) then m else record m {
  inputs = with_row s (with_row r.request_id (some r) (m.inputs s)) m.inputs;
  pending = with_row s (some (ids_after r (pending_ids s m))) m.pending;
}

-- `list`; a missing row would be `undefined`.
unfoldable pub list : ℕ → Meta → List (Option QueuedInput)
list s m = map (m.inputs s) (pending_ids s m)

pub record Summary : Type 0 where
  pub request_id : ℕ
  pub text : Text
  pub requested_at : Text
  pub state : InputState
  pub reason : Text

-- `queuedInputSummary`
unfoldable pub queued_input_summary : (Text → Text) → QueuedInput → Summary
queued_input_summary display r = record {
  request_id = r.request_id;
  text = display r.text;
  requested_at = r.requested_at;
  state = elim r.state [ submitting ↦ submitting | failed ↦ failed | _ ↦ queued ];
  reason = r.reason;
}

pub data Change : Type 0 where
  puts : ℕ → QueuedInput → Change
  advances : ℕ → Change

unfoldable pub run : List Change → Meta → Meta
run [] m = m
run (puts s r ∷ cs) m = run cs (put s r m)
run (advances s ∷ cs) m = run cs (advance_revision s m)
