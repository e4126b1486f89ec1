-- ===== src/Sessions/Working.antt =====
-- apps/server/src/sessions/working-state.ts: the working flag of a session's row, and what the timer of
-- its idle window does. Of a session the fields that the two functions read or write. A time is a
-- text; one that is empty counts as missing. `parse` is `Date.parse`, `none` where it is not finite.
pub mod Idle
mod Examples
use uber_coder.Prelude.{
  ℕ, ◌+◌, ◌-◌, Bool, true, false, not, ◌&&◌, ◌||◌, Option, none, some, Text, leb, if◌then◌else◌,
  same_text, is_some,
}

pub data FailureStatus : Type 0 where
  scheduled retrying stopped : FailureStatus

pub record BoundSession : Type 0 where
  pub run_failure : Option FailureStatus
  pub is_working : Bool
  pub last_output_at : Option Text
  pub last_completed_at : Option Text
  pub updated_at : Text

abbrev pub same_time : Option Text → Option Text → Bool
same_time none none = true
same_time none (some b) = false
same_time (some a) none = false
same_time (some a) (some b) = same_text a b

-- A failure that is not being retried.
abbrev pub failure_stopped : Option FailureStatus → Bool
failure_stopped none = false
failure_stopped (some scheduled) = true
failure_stopped (some retrying) = false
failure_stopped (some stopped) = true

abbrev pub recent_ms : ℕ → Option ℕ → Option ℕ → Bool
recent_ms max_age_ms none b = false
recent_ms max_age_ms (some a) none = false
recent_ms max_age_ms (some reference) (some value) = leb reference (value + max_age_ms)

-- `isRecentTimestamp`
unfoldable pub is_recent_timestamp : (Text → Option ℕ) → Option Text → Text → ℕ → Bool
is_recent_timestamp parse none reference max_age_ms = false
is_recent_timestamp parse (some t) reference max_age_ms =
    recent_ms max_age_ms (parse reference) (parse t)

pub record WorkingState : Type 0 where
  pub next_is_working : Bool
  pub expiry_heartbeat_at : Option Text
  pub clear_expiry : Bool
  pub updated_session : Option BoundSession

abbrev pub same_bool : Bool → Bool → Bool
same_bool true b = b
same_bool false b = not b

-- `nextWorkingState`
unfoldable pub next_working_state : BoundSession → Bool → Text → WorkingState
next_working_state s turn_is_working captured_at =
    let next_is_working = not (failure_stopped s.run_failure) && turn_is_working in
    let pending_completion =
      not turn_is_working
      && is_some s.last_output_at
      && not (same_time s.last_output_at s.last_completed_at) in
    let heartbeat = if next_is_working || pending_completion then s.last_output_at else none in
    record {
      next_is_working = next_is_working;
      expiry_heartbeat_at = heartbeat;
      clear_expiry = not (is_some heartbeat);
      updated_session =
          if same_bool s.is_working next_is_working
          then none
          else some (record s { updated_at = captured_at; is_working = next_is_working });
    }

pub data IdleExpiryDecision : Type 0 where
  clear : IdleExpiryDecision
  reschedule : Text → IdleExpiryDecision
  update : BoundSession → IdleExpiryDecision

pub record IdleInput : Type 0 where
  pub expected_heartbeat_at : Text
  pub now : Text
  pub idle_ms : ℕ
  pub turn_is_working : Option Bool
  pub turn_unidentified : Bool

abbrev pub is_running : Option Bool → Bool
is_running none = false
is_running (some b) = b

abbrev pub is_known_idle : Option Bool → Bool
is_known_idle none = false
is_known_idle (some b) = not b

-- What is left of the decision once a row may complete, for its latest output.
unfoldable pub settle_idle :
    (Text → Option ℕ) → BoundSession → IdleInput → Option Text → IdleExpiryDecision
settle_idle parse s input none = update (record s { updated_at = input.now; is_working = false })
settle_idle parse s input (some at) =
    if not (same_text at input.expected_heartbeat_at)
      || is_recent_timestamp parse (some at) input.now input.idle_ms
    then reschedule at
    else update
        (record s { updated_at = input.now; is_working = false; last_completed_at = some at })

-- `nextIdleExpiryDecision`
unfoldable pub next_idle_expiry_decision :
    (Text → Option ℕ) → BoundSession → IdleInput → IdleExpiryDecision
next_idle_expiry_decision parse s input =
    if failure_stopped s.run_failure
    then clear
    else if is_running input.turn_is_working
    then (if input.turn_unidentified then reschedule input.now else clear)
    else if not s.is_working
        && (not (is_known_idle input.turn_is_working)
            || not (is_some s.last_output_at)
            || same_time s.last_output_at s.last_completed_at)
    then clear
    else settle_idle parse s input s.last_output_at
