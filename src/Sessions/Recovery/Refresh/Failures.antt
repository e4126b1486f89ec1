-- ===== src/Sessions/Recovery/Refresh/Failures.antt =====
-- What a run that failed, or did not, does to the recovery of its session:
-- `refresh` of apps/server/src/sessions/run-recovery.ts.
use uber_coder.Prelude.{
  ℕ, ◌+◌, Bool, true, false, not, ◌&&◌, Option, none, some, List, ltb, if◌then◌else◌, length,
  same_text, is_some,
}
use uber_coder.Sessions.Recovery.{
  ProviderRunState, StoppedReason, outcome_uncertain, RunFailure, SessionRow, Observation, Recovery,
  Moment, reports_run, note, budget, save, clear_timer, schedule, failed, scheduled, retrying,
  stopped, FailureStatus,
}
use uber_coder.Sessions.Recovery.Refresh.{
  same_status, run_key, same_key, not_failed, code_of, message_of, is_retryable, carried_attempts,
  is_fresh, is_cancelled, delay_at, why_stopped,
}

-- The failure that is kept for a run, for whether it is retried.
unfoldable pub failure_of :
    ℕ → List ℕ → ProviderRunState → ℕ → Bool → Option StoppedReason → RunFailure
failure_of now delays run attempts allowed why = record {
  turn_id = run.turn_id;
  failed_at = run.timestamp;
  code = code_of run.error;
  message = message_of run.error;
  attempts = attempts;
  max_attempts = length delays;
  status = if allowed then scheduled else stopped;
  next_retry_at = if allowed then some (now + delay_at delays attempts) else none;
  retry_submitted_at = none;
  stopped_reason = why;
}

unfoldable pub keep_failure : ℕ → Bool → RunFailure → Recovery → Recovery
keep_failure now true f r = schedule now f (save (some f) r)
keep_failure now false f r = save (some f) r

-- A failure of another turn than the one before.
unfoldable pub new_failure :
    Moment → Observation → ProviderRunState → Option RunFailure → Recovery → Recovery
new_failure m o run prior r =
    let attempts = carried_attempts run prior in
    let fresh = is_fresh m.now o run prior in
    let cancelled_turn = is_cancelled run r.cancellation in
    let retryable = is_retryable (code_of run.error) in
    let allowed =
      m.may_recover && fresh && not cancelled_turn && retryable && ltb attempts (length r.delays) in
    keep_failure m.now allowed
      (failure_of m.now r.delays run attempts allowed
        (why_stopped m.may_recover cancelled_turn fresh retryable allowed))
      r

-- The failure of a turn that is known to have failed.
unfoldable pub known_failure : ℕ → Bool → RunFailure → FailureStatus → Recovery → Recovery
known_failure now initial prior scheduled r = schedule now prior r
known_failure now initial prior retrying r =
    if initial
    then save (some (record prior { status = stopped; stopped_reason = some outcome_uncertain })) r
    else r
known_failure now initial prior stopped r = r

unfoldable pub did_fail :
    Moment → Observation → ProviderRunState → Bool → Option RunFailure → Recovery → Recovery
did_fail m o run initial none r = new_failure m o run none r
did_fail m o run initial (some prior) r =
    if same_text prior.turn_id run.turn_id
    then known_failure m.now initial prior prior.status r
    else new_failure m o run (some prior) r

-- A run that the row's session is in.
unfoldable pub settle_run :
    Moment → Observation → ProviderRunState → Bool → Option SessionRow → Recovery → Recovery
settle_run m o run initial none r = r
settle_run m o run initial (some s) r =
    if s.should_restore && s.is_bound
    then (if same_status run.status failed
        then did_fail m o run initial (budget r) (clear_timer r)
        else not_failed s run (budget r) (clear_timer r))
    else r

-- A run that was not seen before.
unfoldable pub observe : Moment → Observation → ProviderRunState → Recovery → Recovery
observe m o run r = settle_run m o run (not (is_some o.seen)) r.row (
    note (reports_run run.status) (record r {
      observation = some (record o {
        seen = some (run_key run);
        last_turn_id = some run.turn_id;
        last_status = some run.status;
        run = some run;
      });
    }))

-- The run, if any, that the monitor or the process's failure tells.
unfoldable pub see_run : Moment → Observation → Option ProviderRunState → Recovery → Recovery
see_run m o none r = r
see_run m o (some run) r = if same_key (run_key run) o.seen then r else observe m o run r
