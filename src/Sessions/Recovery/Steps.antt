-- ===== src/Sessions/Recovery/Steps.antt =====
-- The callbacks' answers, the timers and the lock of apps/server/src/sessions/run-recovery.ts, as steps.
use uber_coder.Prelude.{
  ℕ, Bool, false, Option, none, some, List, [], ◌∷◌, Text, ltb, ◌==◌, if◌then◌else◌,
}
use uber_coder.Sessions.Recovery.{
  ProviderRunState, Blocked, RunFailure, SessionRow, Timer, retries_in, acknowledges_in,
  Observation, Job, refreshes, exits, retries, acknowledges, After, nothing, then_retry,
  then_acknowledge, Task, idle, reading, checking, submitting, locks, reports_children,
  reports_error, Recovery, Moment, note, shown, is_serial,
}
use uber_coder.Sessions.Recovery.Refresh.Failures.{see_run}
use uber_coder.Sessions.Recovery.Retry.{
  finish, ask_retry, retry_checked, Outcome, submit_ended, unacknowledged,
}
use uber_coder.Sessions.Recovery.Calls.{
  changed, stop_watching, watch, confirm_completion, cancel, start_refresh, process_exit,
  generation_of,
}

-- What gets the lock starts.
unfoldable pub start_job : Moment → Job → Recovery → Recovery
start_job m refreshes r = start_refresh r.observation nothing r
start_job m exits r = process_exit m r.row r
start_job m (retries n) r =
    if is_serial n r.observation
    then start_refresh r.observation (then_retry n (generation_of r.observation)) r
    else r
start_job m (acknowledges n) r =
    if is_serial n r.observation then start_refresh r.observation (then_acknowledge n) r else r

-- A process's failure is forgotten once the monitor knows of something later.
abbrev later_than : Option ProviderRunState → ProviderRunState → Bool
later_than none f = false
later_than (some run) f = ltb f.timestamp run.timestamp

abbrev forget_exit : Option ProviderRunState → Option ProviderRunState → Option ProviderRunState
forget_exit native none = none
forget_exit native (some f) = if later_than native f then none else some f

abbrev chosen : Option ProviderRunState → Option ProviderRunState → Option ProviderRunState
chosen none native = native
chosen (some f) native = some f

-- `refresh` after the monitor has answered, for the observation in the map.
unfoldable pub refresh_read :
    Moment → ℕ → ℕ → Option ProviderRunState → Bool → Option Observation → Recovery → Recovery
refresh_read m serial generation native children none r = r
refresh_read m serial generation native children (some o) r =
    if o.serial == serial
    then (let p = record o { process_failure = forget_exit native o.process_failure } in
        let kept = record r { observation = some p } in
        if o.generation == generation
        then see_run m p (chosen p.process_failure native)
            (if children then note reports_children kept else kept)
        else kept)
    else r

unfoldable pub return_to : Moment → After → Recovery → Recovery
return_to m nothing r = finish r
return_to m (then_retry serial generation) r = ask_retry m.now serial generation r
return_to m (then_acknowledge serial) r = finish (unacknowledged serial (shown r.row) r)

pub data Event : Type 0 where
  watches : Text → Event
  changes cancels stops_watching : Event
  confirms : ProviderRunState → Event
  runs : Job → Event
  reads : Option ProviderRunState → Bool → Event
  checks : Option Blocked → Event
  submit_ends : Outcome → Event
  answer_fails timer_fires : Event
  row_changes : Option SessionRow → Event

-- The answers to what the lock's holder awaits; other answers mean nothing to it.
unfoldable pub answer_read : Moment → Option ProviderRunState → Bool → Task → Recovery → Recovery
answer_read m native children (reading serial generation k) r =
    return_to m k (refresh_read m serial generation native children r.observation r)
answer_read m native children _ r = r

unfoldable pub answer_check : Moment → Option Blocked → Task → Recovery → Recovery
answer_check m blocked (checking serial generation) r =
    retry_checked m.now serial generation blocked r
answer_check m blocked _ r = r

unfoldable pub answer_submit : Moment → Outcome → Task → Recovery → Recovery
answer_submit m outcome (submitting serial generation attempts) r =
    submit_ended m.now serial generation attempts outcome (finish r)
answer_submit m outcome _ r = r

-- `monitor.read` or `canRetry` throws.
unfoldable pub answer_error : Task → Recovery → Recovery
answer_error (reading serial generation k) r = note reports_error (finish r)
answer_error (checking serial generation) r = note reports_error (finish r)
answer_error (submitting serial generation attempts) r = r
answer_error idle r = r

-- A timer's callback.
abbrev job_of : ℕ → Timer → Job
job_of serial (retries_in ms) = retries serial
job_of serial (acknowledges_in ms) = acknowledges serial

unfoldable pub fire_timer : Observation → Option Timer → Recovery → Recovery
fire_timer o none r = r
fire_timer o (some t) r =
    note (locks (job_of o.serial t)) (record r { observation = some (record o { timer = none }) })

unfoldable pub timer_fired : Option Observation → Recovery → Recovery
timer_fired none r = r
timer_fired (some o) r = fire_timer o o.timer r

-- Others change the row, but not its failure.
abbrev pub keep_shown : Option RunFailure → Option SessionRow → Option SessionRow
keep_shown f none = none
keep_shown f (some s) = some (record s { run_failure = f })

-- A job gets the lock only when nothing holds it.
unfoldable pub lock_free : Moment → Job → Task → Recovery → Recovery
lock_free m j idle r = start_job m j r
lock_free m j _ r = r

unfoldable pub step : Moment → Event → Recovery → Recovery
step m (watches path) r = watch path m.now r.observation r
step m changes r = changed r.observation r
step m cancels r = cancel m.now r
step m stops_watching r = stop_watching r.observation r
step m (confirms run) r = confirm_completion run r
step m (runs j) r = lock_free m j r.task r
step m (reads native children) r = answer_read m native children r.task r
step m (checks blocked) r = answer_check m blocked r.task r
step m (submit_ends outcome) r = answer_submit m outcome r.task r
step m answer_fails r = answer_error r.task r
step m timer_fires r = timer_fired r.observation r
step m (row_changes row) r = record r { row = keep_shown (shown r.row) row }

unfoldable pub run : List (Moment × Event) → Recovery → Recovery
run [] r = r
run ((m, e) ∷ es) r = run es (step m e r)
