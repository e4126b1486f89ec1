-- ===== src/Sessions/Recovery/Examples.antt =====
-- The theorems on recovery, applied to a run that failed, was retried and stopped by the person.
use uber_coder.Prelude.{ℕ, ◌+◌, ◌≤◌, ◌≡◌, refl, true, false, none, some, List, [], ◌∷◌}
use uber_coder.Sessions.Recovery.{
  server_overloaded, ProviderRunState, provider_stopped, SessionRow, Recovery, Moment, refreshes,
  retries, failed, shown, locks, reports_run, publishes, asks_retry, submits, budget, save,
  save_row, schedule, schedule_at, clear_timer,
}
use uber_coder.Sessions.Recovery.Retry.{
  sent, retry_checked, ask_retry, retry_failure, attempt, submit, submit_ended,
  await_acknowledgement,
}
use uber_coder.Sessions.Recovery.Refresh.{
  same_key, run_key, carried_attempts, is_fresh, is_cancelled, is_retryable, why_stopped,
}
use uber_coder.Sessions.Recovery.Refresh.Failures.{
  see_run, observe, settle_run, did_fail, new_failure, failure_of, keep_failure, known_failure,
}
use uber_coder.Sessions.Recovery.Calls.{
  new_recovery, cancel, watch, watch_anew, stop_watching, add_observation, new_observation,
  earlier_exit, changed, start_refresh,
}
use uber_coder.Sessions.Recovery.Steps.{
  Event, watches, runs, reads, timer_fires, checks, submit_ends, run, step, lock_free, start_job,
  answer_read, refresh_read, timer_fired, fire_timer, return_to, answer_check, answer_submit,
}
use uber_coder.Sessions.Recovery.Replays.{submissions, failed_reports, pending, deferrals}
use uber_coder.Sessions.Recovery.Replays.Runs.{run-submissions}
use uber_coder.Sessions.Recovery.Stops.{Kept, retry_checked-Kept, cancel-submissions}

abbrev row : SessionRow
row = record {
  should_restore = true;
  is_bound = true;
  is_claude = false;
  last_response_at = none;
  process = 1 ∷ [];
  is_working = true;
  run_failure = none;
}

abbrev overloaded : ProviderRunState
overloaded = record {
  turn_id = 7 ∷ [];
  timestamp = 2000;
  started_at = some 1500;
  progress_at = none;
  status = failed;
  error = some (record { code = server_overloaded; message = provider_stopped });
}

abbrev at : ℕ → Moment
at t = record { now = t; may_recover = true }

abbrev until_check : List (Moment × Event)
until_check =
    (at 1000, watches (47 ∷ []))
    ∷ (at 1000, runs refreshes)
    ∷ (at 2100, reads (some overloaded) false)
    ∷ (at 17100, timer_fires)
    ∷ (at 17100, runs (retries 0))
    ∷ (at 17200, reads (some overloaded) false)
    ∷ []

abbrev answered : List (Moment × Event)
answered = (at 17300, checks none) ∷ (at 17400, submit_ends sent) ∷ []

abbrev new_one : Recovery
new_one = new_recovery (15000 ∷ 45000 ∷ []) (some row) none none

abbrev asked : Recovery
asked = run until_check new_one

retried :
    (run answered asked).calls
    ≡ submits 1
      ∷ publishes
      ∷ asks_retry
      ∷ locks (retries 0)
      ∷ publishes
      ∷ reports_run failed
      ∷ locks refreshes
      ∷ []
unfolding run step watch watch_anew stop_watching add_observation new_observation earlier_exit
    budget changed lock_free start_job start_refresh answer_read refresh_read see_run same_key
    run_key observe settle_run did_fail new_failure carried_attempts is_fresh is_cancelled
    is_retryable why_stopped failure_of keep_failure save save_row schedule schedule_at clear_timer
    timer_fired fire_timer return_to ask_retry answer_check retry_checked retry_failure attempt
    submit answer_submit submit_ended await_acknowledgement known_failure new_recovery
retried = refl

run-submissions_example :
    submissions (run until_check new_one).calls
    ≤ failed_reports (run until_check new_one).calls
      + deferrals until_check
      + pending (shown (some row))
run-submissions_example = run-submissions until_check (15000 ∷ 45000 ∷ []) (some row) none none

cancel-submissions_example :
    submissions (run answered (cancel 17250 asked)).calls + failed_reports asked.calls
    ≤ submissions asked.calls
      + failed_reports (run answered (cancel 17250 asked)).calls
      + deferrals answered
cancel-submissions_example = cancel-submissions 17250 answered asked

retry_checked-Kept_example : Kept asked (retry_checked 17300 0 0 none asked)
retry_checked-Kept_example = retry_checked-Kept 17300 0 0 none asked
