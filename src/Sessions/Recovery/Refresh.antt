-- ===== src/Sessions/Recovery/Refresh.antt =====
-- `refresh` of apps/server/src/sessions/run-recovery.ts after the monitor has answered.
pub mod Failures
use uber_coder.Prelude.{
  ℕ, zero, suc, ◌+◌, ◌-◌, Bool, true, false, not, ◌&&◌, ◌||◌, Option, none, some, List, [], ◌∷◌,
  Text, ltb, leb, ◌==◌, if◌then◌else◌, length, same_text, is_some,
}
use uber_coder.Sessions.Recovery.{
  ErrorCode, server_overloaded, server_unavailable, process_exited, unknown, other_code, RunError,
  FailureMessage, provider_stopped, ProviderRunState, StoppedReason, outcome_uncertain,
  recovery_disabled, turn_cancelled, ended_before_monitoring, needs_attention, limit_reached,
  RunFailure, SessionRow, RunKey, Observation, Cancellation, Recovery, Moment, reports_run,
  publishes, note, budget, is_retrying, save, clear_timer, schedule, recovery_max_age_ms, same_turn,
  RunStatus, running, completed, cancelled, failed, scheduled, retrying, stopped, FailureStatus,
}

abbrev pub same_status : RunStatus → RunStatus → Bool
same_status running running = true
same_status completed completed = true
same_status cancelled cancelled = true
same_status failed failed = true
same_status _ _ = false

abbrev same_number : Option ℕ → Option ℕ → Bool
same_number none none = true
same_number none (some b) = false
same_number (some a) none = false
same_number (some a) (some b) = a == b

unfoldable pub run_key : ProviderRunState → RunKey
run_key run = record {
  turn_id = run.turn_id;
  status = run.status;
  timestamp = run.timestamp;
  progress_at = run.progress_at;
}

unfoldable pub same_key : RunKey → Option RunKey → Bool
same_key k none = false
same_key k (some j) =
    same_text k.turn_id j.turn_id
    && same_status k.status j.status
    && (k.timestamp == j.timestamp)
    && same_number k.progress_at j.progress_at

-- Whether a time is present and not before another.
abbrev since : ℕ → Option ℕ → Bool
since limit none = false
since limit (some t) = leb limit t

abbrev number_or : Option ℕ → ℕ → ℕ
number_or none n = n
number_or (some m) n = m

-- The failure's turn, if there is one.
abbrev turn_of : Option RunFailure → Option Text
turn_of none = none
turn_of (some f) = some f.turn_id

abbrev retry_time : RunFailure → ℕ
retry_time f = number_or f.retry_submitted_at f.failed_at

-- The notice of the row is cleared, while the budget is kept.
unfoldable pub acknowledge : RunFailure → Option SessionRow → Recovery → Recovery
acknowledge prior none r = r
acknowledge prior (some s) r =
    if is_some s.run_failure
    then note publishes
        (record r { budget_row = some prior; row = some (record s { run_failure = none }) })
    else r

-- A run of another turn that is under way after a retry.
unfoldable pub resumed : ProviderRunState → RunFailure → Recovery → Recovery
resumed run prior r =
    if since (retry_time prior) run.progress_at then save none r else acknowledge prior r.row r

-- A Claude turn's end that the lifecycle has not confirmed.
abbrev unconfirmed : SessionRow → ProviderRunState → Bool
unconfirmed s run =
    s.is_claude && same_status run.status completed && not (since run.timestamp s.last_response_at)

-- A run that has not failed, for the failure there was.
unfoldable pub not_failed : SessionRow → ProviderRunState → Option RunFailure → Recovery → Recovery
not_failed s run none r = r
not_failed s run (some prior) r =
    if same_status run.status running
      && is_retrying prior.status
      && not (same_text run.turn_id prior.turn_id)
    then resumed run prior r
    else if unconfirmed s run
    then r
    else save none r

abbrev pub code_of : Option RunError → ErrorCode
code_of none = unknown
code_of (some e) = e.code

abbrev pub message_of : Option RunError → FailureMessage
message_of none = provider_stopped
message_of (some e) = e.message

unfoldable pub is_retryable : ErrorCode → Bool
is_retryable server_overloaded = true
is_retryable server_unavailable = true
is_retryable process_exited = true
is_retryable unknown = false
is_retryable (other_code t) = false

-- The attempts that a failure starts with.
unfoldable pub carried_attempts : ProviderRunState → Option RunFailure → ℕ
carried_attempts run none = 0
carried_attempts run (some prior) =
    if is_retrying prior.status
      && not (since (number_or prior.retry_submitted_at run.timestamp) run.progress_at)
    then prior.attempts
    else 0

abbrev after_submission : ℕ → ℕ → Option ℕ → Bool
after_submission now timestamp none = false
after_submission now timestamp (some submitted) =
    leb submitted timestamp && ltb (now - timestamp) recovery_max_age_ms

abbrev follows_retry : ℕ → ProviderRunState → Option RunFailure → Bool
follows_retry now run none = false
follows_retry now run (some prior) =
    is_retrying prior.status && after_submission now run.timestamp prior.retry_submitted_at

unfoldable pub is_fresh : ℕ → Observation → ProviderRunState → Option RunFailure → Bool
is_fresh now o run prior = leb o.attached_at run.timestamp || follows_retry now run prior

unfoldable pub is_cancelled : ProviderRunState → Option Cancellation → Bool
is_cancelled run none = false
is_cancelled run (some c) =
    same_turn run.turn_id c.turn_id || leb (number_or run.started_at run.timestamp) c.at

-- `delays[attempts]`
abbrev pub delay_at : List ℕ → ℕ → ℕ
delay_at [] n = 0
delay_at (d ∷ ds) zero = d
delay_at (d ∷ ds) (suc n) = delay_at ds n

unfoldable pub why_stopped : Bool → Bool → Bool → Bool → Bool → Option StoppedReason
why_stopped enabled is_cancelled fresh retryable allowed =
    if not enabled
    then some recovery_disabled
    else if is_cancelled
    then some turn_cancelled
    else if not fresh
    then some ended_before_monitoring
    else if not retryable
    then some needs_attention
    else if not allowed
    then some limit_reached
    else none
