-- ===== src/Sessions/Recovery.antt =====
-- apps/server/src/sessions/run-recovery.ts: the automatic retries of one session's failed run. A time is
-- the milliseconds of its ISO text. Of the callbacks the answers are events, and the calls of them are
-- kept in `calls`, the newest first; whether `mayRecover` allows the session comes with each event. An
-- observation is known by a serial number.
pub mod Refresh
pub mod Retry
pub mod Calls
pub mod Steps
pub mod Replays
pub mod Stops
mod Examples
use uber_coder.Prelude.{
  ℕ, ◌+◌, ◌-◌, Bool, true, false, not, ◌&&◌, ◌||◌, Option, none, some, List, [], ◌∷◌, Text, ltb,
  leb, ◌==◌, if◌then◌else◌, length, or_else, same_text,
}
pub use uber_coder.Sessions.Monitor.{RunStatus, running, completed, cancelled, failed}
pub use uber_coder.Sessions.Working.{FailureStatus, scheduled, retrying, stopped}

abbrev pub recovery_max_age_ms : ℕ
recovery_max_age_ms = 600000

abbrev pub acknowledge_ms : ℕ
acknowledge_ms = 30000

pub data ErrorCode : Type 0 where
  server_overloaded server_unavailable process_exited unknown : ErrorCode
  other_code : Text → ErrorCode

-- `The provider stopped.`, `The provider process exited with unattended work remaining.`, or the provider's.
pub data FailureMessage : Type 0 where
  provider_stopped process_ended : FailureMessage
  provider_says : Text → FailureMessage

pub record RunError : Type 0 where
  pub code : ErrorCode
  pub message : FailureMessage

pub record ProviderRunState : Type 0 where
  pub turn_id : Text
  pub timestamp : ℕ
  pub started_at : Option ℕ
  pub progress_at : Option ℕ
  pub status : RunStatus
  pub error : Option RunError

-- The answer of `canRetry`.
pub data Blocked : Type 0 where
  not_restored : Blocked
  blocked_by : Text → Blocked

pub data StoppedReason : Type 0 where
  cancelled_by_user outcome_uncertain recovery_disabled turn_cancelled ended_before_monitoring
        needs_attention limit_reached expired not_relaunched window_expired not_acknowledged
        submission_failed :
      StoppedReason
  blocked_retry : Blocked → StoppedReason
  rejected_with : Text → StoppedReason

pub record RunFailure : Type 0 where
  pub turn_id : Text
  pub failed_at : ℕ
  pub code : ErrorCode
  pub message : FailureMessage
  pub attempts : ℕ
  pub max_attempts : ℕ
  pub status : FailureStatus
  pub next_retry_at : Option ℕ
  pub retry_submitted_at : Option ℕ
  pub stopped_reason : Option StoppedReason

-- Of a bound session's row the fields that recovery reads or writes; `process` is its process id and start.
pub record SessionRow : Type 0 where
  pub should_restore : Bool
  pub is_bound : Bool
  pub is_claude : Bool
  pub last_response_at : Option ℕ
  pub process : Text
  pub is_working : Bool
  pub run_failure : Option RunFailure

pub data Timer : Type 0 where
  retries_in acknowledges_in : ℕ → Timer

-- The four parts of the key of a run.
pub record RunKey : Type 0 where
  pub turn_id : Text
  pub status : RunStatus
  pub timestamp : ℕ
  pub progress_at : Option ℕ

pub record Observation : Type 0 where
  pub serial : ℕ
  pub path : Text
  pub attached_at : ℕ
  pub seen : Option RunKey
  pub timer : Option Timer
  pub generation : ℕ
  pub last_turn_id : Option Text
  pub last_status : Option RunStatus
  pub run : Option ProviderRunState
  pub process_failure : Option ProviderRunState

pub record Cancellation : Type 0 where
  pub turn_id : Option Text
  pub at : ℕ

-- What runs under the session's lock.
pub data Job : Type 0 where
  refreshes exits : Job
  retries acknowledges : ℕ → Job

-- What a refresh returns to: nothing, a retry with its generation, or the end of an acknowledgement's wait.
pub data After : Type 0 where
  nothing : After
  then_retry : ℕ → ℕ → After
  then_acknowledge : ℕ → After

-- What the holder of the lock awaits: `monitor.read`, `canRetry` or `submit`, of which observation and
-- with which generation.
pub data Task : Type 0 where
  idle : Task
  reading : ℕ → ℕ → After → Task
  checking : ℕ → ℕ → Task
  submitting : ℕ → ℕ → ℕ → Task

pub data Call : Type 0 where
  locks : Job → Call
  publishes reports_children reports_error asks_retry : Call
  reports_run : RunStatus → Call
  submits : ℕ → Call

pub record Recovery : Type 0 where
  pub delays : List ℕ
  pub observation : Option Observation
  -- Observations no longer kept in the map, which an awaiting task may still hold.
  pub detached : List Observation
  pub next_serial : ℕ
  pub row : Option SessionRow
  pub budget_row : Option RunFailure
  pub cancellation : Option Cancellation
  pub task : Task
  pub calls : List Call

pub record Moment : Type 0 where
  pub now : ℕ
  pub may_recover : Bool

abbrev pub note : Call → Recovery → Recovery
note c r = record r { calls = c ∷ r.calls }

abbrev pub shown : Option SessionRow → Option RunFailure
shown none = none
shown (some s) = s.run_failure

-- `budget`
unfoldable pub budget : Recovery → Option RunFailure
budget r = or_else (shown r.row) r.budget_row

abbrev pub is_retrying : FailureStatus → Bool
is_retrying scheduled = false
is_retrying retrying = true
is_retrying stopped = false

abbrev pub is_scheduled : FailureStatus → Bool
is_scheduled scheduled = true
is_scheduled retrying = false
is_scheduled stopped = false

abbrev pub is_stopped : FailureStatus → Bool
is_stopped scheduled = false
is_stopped retrying = false
is_stopped stopped = true

abbrev pub has : (FailureStatus → Bool) → Option RunFailure → Bool
has test none = false
has test (some f) = test f.status

-- The part of `save` for a row that exists.
unfoldable pub save_row : Option RunFailure → Option SessionRow → Recovery → Recovery
save_row f none r = r
save_row f (some s) r = note publishes (record r {
  row = some (record s {
    run_failure = f;
    is_working = s.is_working && not (has (λ t. not (is_retrying t)) f);
  });
})

-- `save`
unfoldable pub save : Option RunFailure → Recovery → Recovery
save f r = save_row f r.row (record r { budget_row = f })

abbrev pub with_timer : Option Timer → Option Observation → Option Observation
with_timer t none = none
with_timer t (some o) = some (record o { timer = t })

-- `clearTimer`, of the observation in the map
unfoldable pub clear_timer : Recovery → Recovery
clear_timer r = record r { observation = with_timer none r.observation }

abbrev pub stop_failure : StoppedReason → RunFailure → RunFailure
stop_failure why f = record f { status = stopped; next_retry_at = none; stopped_reason = some why }

-- `schedule` once the old timer is cleared, for the time of the retry.
unfoldable pub schedule_at : ℕ → RunFailure → Option ℕ → Recovery → Recovery
schedule_at now f none r = save (some (stop_failure expired f)) r
schedule_at now f (some next) r =
    if ltb recovery_max_age_ms (now - f.failed_at) || leb (length r.delays) f.attempts
    then save (some (stop_failure expired f)) r
    else record r { observation = with_timer (some (retries_in (next - now))) r.observation }

-- `schedule`
unfoldable pub schedule : ℕ → RunFailure → Recovery → Recovery
schedule now f r = schedule_at now f f.next_retry_at (clear_timer r)

abbrev pub is_serial : ℕ → Option Observation → Bool
is_serial n none = false
is_serial n (some o) = o.serial == n

abbrev find_detached : ℕ → List Observation → Option Observation
find_detached n [] = none
find_detached n (o ∷ os) = let rest = find_detached n os in if o.serial == n then some o else rest

-- The observation that a task holds, whether or not the map still has it.
abbrev pub held : ℕ → Recovery → Option Observation
held n r = if is_serial n r.observation then r.observation else find_detached n r.detached

abbrev pub has_generation : ℕ → Option Observation → Bool
has_generation g none = false
has_generation g (some o) = o.generation == g

abbrev pub same_turn : Text → Option Text → Bool
same_turn t none = false
same_turn t (some u) = same_text t u
