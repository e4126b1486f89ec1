-- ===== src/Sessions/Recovery/Replays.antt =====
-- How often a retry is submitted, for how often a run was found to have failed: the counts.
pub mod Seen
pub mod Tried
pub mod Runs
use uber_coder.Prelude.{
  ℕ, ◌+◌, suc, ◌-◌, min, ◌&&◌, ◌==◌, ◌≤◌, ◌≡◌, refl, sym, Bool, true, false, Option, none, some,
  List, [], ◌∷◌, ltb, leb, length, not, Text, Bool-cases, same_text, arith, inl, inr, is_some,
  if◌then◌else◌,
}
use uber_coder.Sessions.Recovery.{
  Call, submits, reports_run, publishes, locks, reports_children, reports_error, asks_retry,
  StoppedReason, RunStatus, running, completed, cancelled, failed, RunFailure, SessionRow, Recovery,
  Moment, ProviderRunState, Observation, Blocked, not_restored, blocked_by, FailureStatus,
  scheduled, retrying, stopped, shown, has, is_scheduled, save, save_row, stop_failure,
  not_relaunched, recovery_max_age_ms, schedule_at, schedule, clear_timer, note, budget, After,
  nothing, then_retry, then_acknowledge, Task, idle, reading, checking, submitting, Cancellation,
  Job, refreshes, exits, retries, acknowledges,
}
use uber_coder.Sessions.Recovery.Refresh.{
  acknowledge, resumed, not_failed, delay_at, same_key, run_key, why_stopped, carried_attempts,
  is_fresh, is_cancelled, is_retryable,
}
use uber_coder.Sessions.Recovery.Refresh.Failures.{
  keep_failure, new_failure, known_failure, did_fail, settle_run, observe, see_run, failure_of,
}
use uber_coder.Sessions.Recovery.Retry.{
  finish, is_watched, ask_retry, relaunch_later, refuse, submit, attempt, retry_failure,
  retry_checked, Outcome, sent, deferred, submit_failed, rejected, await_acknowledgement, give_back,
  stop_uncertain, stop_rejected, submit_ended, unacknowledged,
}
use uber_coder.Sessions.Recovery.Calls.{
  new_recovery, add_observation, changed, stop_watching, watch_anew, watch, confirm_completion,
  cancel_failure, cancel, start_refresh, note_exit, process_exit,
}
use uber_coder.Sessions.Recovery.Steps.{
  keep_shown, start_job, refresh_read, return_to, Event, watches, changes, cancels, stops_watching,
  confirms, runs, reads, checks, submit_ends, answer_fails, timer_fires, row_changes, answer_read,
  answer_check, answer_submit, answer_error, fire_timer, timer_fired, lock_free, step, run,
}

abbrev pub submissions : List Call → ℕ
submissions [] = 0
submissions (submits n ∷ cs) = 1 + submissions cs
submissions (_ ∷ cs) = submissions cs

-- The runs that were reported as failed.
abbrev pub failed_reports : List Call → ℕ
failed_reports [] = 0
failed_reports (reports_run failed ∷ cs) = 1 + failed_reports cs
failed_reports (_ ∷ cs) = failed_reports cs

-- One when a retry is scheduled.
abbrev pub pending : Option RunFailure → ℕ
pending f = if has is_scheduled f then 1 else 0

-- The submissions that were certainly not sent.
abbrev pub deferral : Event → ℕ
deferral (submit_ends deferred) = 1
deferral _ = 0

-- How many submissions were certainly not sent.
abbrev pub deferrals : List (Moment × Event) → ℕ
deferrals [] = 0
deferrals ((m, e) ∷ es) = deferral e + deferrals es

-- From one state to another, the submissions with the scheduled one grow at most by the failures
-- reported in between and `k` others.
unfoldable pub Within : ℕ → Recovery → Recovery → Type 0
Within k r s =
    submissions s.calls + pending (shown s.row) + failed_reports r.calls
    ≤ submissions r.calls + pending (shown r.row) + failed_reports s.calls + k

-- The counts are of the same calls.
unfoldable pub SameCalls : Recovery → Recovery → Type 0
SameCalls r s =
    (submissions s.calls ≡ submissions r.calls) × (failed_reports s.calls ≡ failed_reports r.calls)

-- A state with the same calls and row to start from.
pub from_same :
    (k : ℕ) (q r s : Recovery) → q.calls ≡ r.calls → q.row ≡ r.row → Within k q s → Within k r s
unfolding Within
from_same k q r s e f h = rw (sym e, sym f) h

pub to_same : (q r : Recovery) → q.calls ≡ r.calls → q.row ≡ r.row → Within 0 q r
unfolding Within
to_same q r e f = rw (e, f) (omega arith)

pub same-Within : (r : Recovery) → Within 0 r r
unfolding Within
same-Within r = omega arith

pub weaken : (r s : Recovery) → Within 0 r s → Within 1 r s
unfolding Within
weaken r s h = omega arith

pub grow-Within : (k : ℕ) (r s : Recovery) → Within 0 r s → Within k r s
unfolding Within
grow-Within k r s h = omega arith

pub if-Within :
    (k : ℕ) (b : Bool) (r s t : Recovery)
    → Within k r s
    → Within k r t
    → Within k r (if b then s else t)
if-Within k true r s t hs ht = hs
if-Within k false r s t hs ht = ht

pub trans-Within : (k j : ℕ) (r s t : Recovery) → Within k r s → Within j s t → Within (k + j) r t
unfolding Within
trans-Within k j r s t h g = omega arith

pub note_error : (r s : Recovery) → Within 0 r s → Within 0 r (note reports_error s)
unfolding Within
note_error r s h = h

pub save-SameCalls : (f : Option RunFailure) (r : Recovery) → SameCalls r (save f r)
unfolding save save_row SameCalls
save-SameCalls f r = ground arith

pub save-pending :
    (f : Option RunFailure) (r : Recovery) → pending (shown (save f r).row) ≤ pending f
unfolding save save_row
save-pending f r = ground arith

pub save-Within : (f : Option RunFailure) (r : Recovery) → Within (pending f) r (save f r)
unfolding Within SameCalls
save-Within f r = ground (arith, save-SameCalls f r, save-pending f r)

pub save-none-Within : (r : Recovery) → Within 0 r (save none r)
save-none-Within r = save-Within none r

pub schedule-Within : (now : ℕ) (f : RunFailure) (r : Recovery) → Within 0 r (schedule now f r)
unfolding Within schedule schedule_at clear_timer save save_row
schedule-Within now f r = ground arith
