-- ===== src/Sessions/Recovery/Retry.antt =====
-- `retry` and the two places it waits at, of apps/server/src/sessions/run-recovery.ts.
use uber_coder.Prelude.{
  ℕ, suc, ◌+◌, ◌-◌, Bool, true, false, not, ◌&&◌, ◌||◌, Option, none, some, Text, ltb, leb,
  if◌then◌else◌, length, min, is_some,
}
use uber_coder.Sessions.Recovery.{
  process_exited, ErrorCode, server_overloaded, server_unavailable, unknown, other_code, Blocked,
  not_restored, blocked_by, not_relaunched, window_expired, submission_failed, not_acknowledged,
  blocked_retry, rejected_with, RunFailure, Observation, acknowledges_in, idle, checking,
  submitting, submits, asks_retry, reports_error, Recovery, note, shown, is_retrying, is_scheduled,
  is_stopped, has, save, schedule, stop_failure, recovery_max_age_ms, acknowledge_ms, with_timer,
  is_serial, held, has_generation, same_turn, failed, RunStatus, scheduled, retrying, stopped,
}
use uber_coder.Sessions.Recovery.Refresh.{delay_at}

abbrev pub finish : Recovery → Recovery
finish r = record r { task = idle }

abbrev is_due : ℕ → Option ℕ → Bool
is_due now none = true
is_due now (some t) = leb t now

-- Whether `canRetry` is to be asked, for the row's failure.
abbrev may_ask : ℕ → Bool → Option RunFailure → Bool
may_ask now same_generation none = false
may_ask now same_generation (some f) =
    is_scheduled f.status && same_generation && is_due now f.next_retry_at

-- `retry` after its refresh.
unfoldable pub ask_retry : ℕ → ℕ → ℕ → Recovery → Recovery
ask_retry now serial generation r =
    if may_ask now (has_generation generation (held serial r)) (shown r.row)
    then note asks_retry (record r { task = checking serial generation })
    else finish r

-- A conversation that could not be restored takes an attempt.
unfoldable pub relaunch_later : ℕ → RunFailure → Recovery → Recovery
relaunch_later now f r =
    let attempts = suc f.attempts in
    if leb (length r.delays) attempts
    then save (some (stop_failure not_relaunched (record f { attempts = attempts }))) r
    else let next = record f {
      attempts = attempts;
      status = scheduled;
      next_retry_at = some (now + delay_at r.delays attempts);
    } in
      schedule now next (save (some next) r)

abbrev is_exit : ErrorCode → Bool
is_exit process_exited = true
is_exit server_overloaded = false
is_exit server_unavailable = false
is_exit unknown = false
is_exit (other_code t) = false

-- What `canRetry` answered, within the recovery window or not, is a reason not to retry.
unfoldable pub refuse : ℕ → Bool → RunFailure → Option Blocked → Recovery → Recovery
refuse now old f none r = save (some (stop_failure window_expired f)) r
refuse now old f (some (blocked_by t)) r =
    save (some (stop_failure (blocked_retry (blocked_by t)) f)) r
refuse now old f (some not_restored) r =
    if is_exit f.code && not old
    then relaunch_later now f r
    else save (some (stop_failure (blocked_retry not_restored) f)) r

-- The attempt is saved, and then the prompt is submitted.
unfoldable pub submit : ℕ → ℕ → ℕ → RunFailure → Recovery → Recovery
submit now serial generation f r = note (submits (suc f.attempts)) (
    save
      (some (record f {
        attempts = suc f.attempts;
        status = retrying;
        next_retry_at = none;
        retry_submitted_at = some now;
      }))
      (record r { task = submitting serial generation f.attempts }))

unfoldable pub attempt : ℕ → ℕ → ℕ → Option Blocked → RunFailure → Recovery → Recovery
attempt now serial generation blocked f r =
    let old = ltb recovery_max_age_ms (now - f.failed_at) in
    if is_some blocked || old
    then refuse now old f blocked (finish r)
    else submit now serial generation f r

-- Whether the observation is still the one in the map, with its generation.
abbrev pub is_watched : ℕ → ℕ → Recovery → Bool
is_watched serial generation r =
    is_serial serial r.observation && has_generation generation r.observation

unfoldable pub retry_failure : ℕ → ℕ → ℕ → Option Blocked → Option RunFailure → Recovery → Recovery
retry_failure now serial generation blocked none r = finish r
retry_failure now serial generation blocked (some f) r =
    if is_watched serial generation r && is_scheduled f.status
    then attempt now serial generation blocked f r
    else finish r

-- `retry` after `canRetry` has answered.
unfoldable pub retry_checked : ℕ → ℕ → ℕ → Option Blocked → Recovery → Recovery
retry_checked now serial generation blocked r =
    retry_failure now serial generation blocked (shown r.row) r

-- How `submit` ends.
pub data Outcome : Type 0 where
  sent deferred submit_failed : Outcome
  rejected : Text → Outcome

-- `isCurrent`
abbrev is_current : ℕ → ℕ → Recovery → Bool
is_current serial generation r = is_watched serial generation r && has is_retrying (shown r.row)

unfoldable pub await_acknowledgement : Recovery → Recovery
await_acknowledgement r = record r {
  observation = with_timer (some (acknowledges_in acknowledge_ms)) r.observation;
}

-- The attempt is given back.
unfoldable pub give_back : ℕ → ℕ → Option RunFailure → Recovery → Recovery
give_back now attempts none r = r
give_back now attempts (some f) r =
    let next = record f {
      attempts = attempts;
      status = scheduled;
      retry_submitted_at = none;
      next_retry_at = some (now + delay_at r.delays (min attempts (length r.delays - 1)));
    } in
    schedule now next (save (some next) r)

-- A failure that is not stopped yet is.
unfoldable pub stop_uncertain : Option RunFailure → Recovery → Recovery
stop_uncertain none r = r
stop_uncertain (some f) r =
    if is_stopped f.status
    then r
    else save (some (record f { status = stopped; stopped_reason = some submission_failed })) r

unfoldable pub stop_rejected : Text → Option RunFailure → Recovery → Recovery
stop_rejected message none r = r
stop_rejected message (some f) r =
    if is_stopped f.status then r else save (some (stop_failure (rejected_with message) f)) r

-- `retry` after `submit` has ended.
unfoldable pub submit_ended : ℕ → ℕ → ℕ → ℕ → Outcome → Recovery → Recovery
submit_ended now serial generation attempts sent r =
    if is_current serial generation r then await_acknowledgement r else r
submit_ended now serial generation attempts deferred r =
    if is_current serial generation r then give_back now attempts (shown r.row) r else r
submit_ended now serial generation attempts (rejected message) r =
    stop_rejected message (shown r.row) r
submit_ended now serial generation attempts submit_failed r =
    note reports_error (stop_uncertain (shown r.row) r)

abbrev is_failed : Option RunStatus → Bool
is_failed (some failed) = true
is_failed _ = false

-- Whether the observation's last run is the failed one that was retried.
abbrev last_failed : Text → Option Observation → Bool
last_failed turn_id none = false
last_failed turn_id (some o) = same_turn turn_id o.last_turn_id && is_failed o.last_status

-- The end of an acknowledgement's wait, after its refresh.
unfoldable pub unacknowledged : ℕ → Option RunFailure → Recovery → Recovery
unacknowledged serial none r = r
unacknowledged serial (some f) r =
    if is_retrying f.status && last_failed f.turn_id (held serial r)
    then save (some (record f { status = stopped; stopped_reason = some not_acknowledged })) r
    else r
