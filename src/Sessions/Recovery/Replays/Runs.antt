-- ===== src/Sessions/Recovery/Replays/Runs.antt =====
-- The submissions of a whole history.
use uber_coder.Prelude.{
  ℕ, ◌+◌, ◌≤◌, ◌≡◌, refl, Bool, Option, none, some, List, [], ◌∷◌, Text, Bool-cases, arith, inl,
  inr, is_some,
}
use uber_coder.Sessions.Recovery.{
  RunFailure, SessionRow, Recovery, Moment, ProviderRunState, Observation, Blocked, shown,
  clear_timer, After, nothing, Task, idle, reading, checking, submitting, Cancellation, Job,
  refreshes, exits, retries, acknowledges,
}
use uber_coder.Sessions.Recovery.Retry.{finish, retry_checked, Outcome}
use uber_coder.Sessions.Recovery.Calls.{
  new_recovery, add_observation, changed, stop_watching, watch_anew, watch, confirm_completion,
  cancel_failure, cancel, start_refresh, note_exit, process_exit,
}
use uber_coder.Sessions.Recovery.Steps.{
  keep_shown, start_job, Event, watches, changes, cancels, stops_watching, confirms, runs, reads,
  checks, submit_ends, answer_fails, timer_fires, row_changes, answer_read, answer_check,
  answer_submit, answer_error, fire_timer, timer_fired, lock_free, step, run,
}
use uber_coder.Sessions.Recovery.Replays.{
  submissions, failed_reports, pending, deferral, deferrals, Within, from_same, to_same,
  same-Within, grow-Within, if-Within, trans-Within, save-Within, save-none-Within,
}
use uber_coder.Sessions.Recovery.Replays.Seen.{refresh_read-Within}
use uber_coder.Sessions.Recovery.Replays.Tried.{
  return_to-Within, retry_failure-Within, submit_ended-Within,
}

watch-Within :
    (path : Text) (now : ℕ) (o : Option Observation) (r : Recovery)
    → r.observation ≡ o
    → Within 0 r (watch path now o r)
unfolding watch watch_anew stop_watching changed add_observation Within
watch-Within path now none r e = rw e (omega arith)
watch-Within path now (some o) r e = rw e (ground arith)

cancel_failure-Within : (f : Option RunFailure) (r : Recovery) → Within 0 r (cancel_failure f r)
unfolding cancel_failure
cancel_failure-Within none r = same-Within r
cancel_failure-Within (some f) r = if-Within 0 _ r _ _ (same-Within r) (save-Within _ r)

pub cancel-Within : (now : ℕ) (r : Recovery) → Within 0 r (cancel now r)
unfolding cancel
cancel-Within now r = from_same 0 _ r _ refl refl (cancel_failure-Within _ _)

clear-Within : (r : Recovery) → Within 0 r (clear_timer r)
unfolding clear_timer
clear-Within r = to_same r _ refl refl

confirm-Within : (state : ProviderRunState) (r : Recovery) → Within 0 r (confirm_completion state r)
unfolding confirm_completion
confirm-Within state r =
    if-Within 0 _ r _ _
      (if-Within 0 _ r _ _
        (trans-Within 0 0 r (clear_timer r) _ (clear-Within r) (save-none-Within (clear_timer r)))
        (clear-Within r))
      (same-Within r)

start_refresh-Within :
    (o : Option Observation) (k : After) (r : Recovery) → Within 0 r (start_refresh o k r)
unfolding start_refresh
start_refresh-Within none k r = to_same r _ refl refl
start_refresh-Within (some o) k r = to_same r _ refl refl

note_exit-Within : (process : Text) (now : ℕ) (r : Recovery) → Within 0 r (note_exit process now r)
unfolding note_exit add_observation
note_exit-Within process now r = elim (Bool-cases (is_some r.observation)) [
  | inl e ↦ rw (e, note_exit) (from_same 0 _ r _ refl refl (start_refresh-Within _ nothing _))
  | inr e ↦ rw (e, note_exit) (from_same 0 _ r _ refl refl (start_refresh-Within _ nothing _))
]

process_exit-Within :
    (m : Moment) (row : Option SessionRow) (r : Recovery) → Within 0 r (process_exit m row r)
unfolding process_exit
process_exit-Within m none r = to_same r _ refl refl
process_exit-Within m (some s) r =
    if-Within 0 _ r (finish r) _ (to_same r _ refl refl) (note_exit-Within s.process m.now r)

start_job-Within : (m : Moment) (j : Job) (r : Recovery) → Within 0 r (start_job m j r)
unfolding start_job
start_job-Within m refreshes r = start_refresh-Within r.observation nothing r
start_job-Within m exits r = process_exit-Within m r.row r
start_job-Within m (retries n) r = if-Within 0 _ r _ _ (start_refresh-Within _ _ r) (same-Within r)
start_job-Within m (acknowledges n) r =
    if-Within 0 _ r _ _ (start_refresh-Within _ _ r) (same-Within r)

lock_free-Within : (m : Moment) (j : Job) (t : Task) (r : Recovery) → Within 0 r (lock_free m j t r)
unfolding lock_free
lock_free-Within m j idle r = start_job-Within m j r
lock_free-Within m j (reading n g k) r = same-Within r
lock_free-Within m j (checking n g) r = same-Within r
lock_free-Within m j (submitting n g a) r = same-Within r

changed-Within : (o : Option Observation) (r : Recovery) → Within 0 r (changed o r)
unfolding changed Within
changed-Within none r = omega arith
changed-Within (some o) r = omega arith

stop_watching-Within : (o : Option Observation) (r : Recovery) → Within 0 r (stop_watching o r)
unfolding stop_watching
stop_watching-Within none r = same-Within r
stop_watching-Within (some o) r = to_same r _ refl refl

timer_fired-Within : (o : Option Observation) (r : Recovery) → Within 0 r (timer_fired o r)
unfolding timer_fired fire_timer Within
timer_fired-Within o r = ground arith

answer_read-Within :
    (m : Moment) (native : Option ProviderRunState) (children : Bool) (t : Task) (r : Recovery)
    → Within 0 r (answer_read m native children t r)
unfolding answer_read
answer_read-Within m native children idle r = same-Within r
answer_read-Within m native children (reading n g k) r =
    trans-Within 0 0 r _ _ (refresh_read-Within m n g native children r.observation r)
      (return_to-Within m k _)
answer_read-Within m native children (checking n g) r = same-Within r
answer_read-Within m native children (submitting n g a) r = same-Within r

answer_check-Within :
    (m : Moment) (b : Option Blocked) (t : Task) (r : Recovery) → Within 0 r (answer_check m b t r)
unfolding answer_check retry_checked
answer_check-Within m b idle r = same-Within r
answer_check-Within m b (reading n g k) r = same-Within r
answer_check-Within m b (checking n g) r = retry_failure-Within m.now n g b (shown r.row) r refl
answer_check-Within m b (submitting n g a) r = same-Within r

answer_submit-Within :
    (m : Moment) (out : Outcome) (t : Task) (r : Recovery)
    → Within (deferral (submit_ends out)) r (answer_submit m out t r)
unfolding answer_submit
answer_submit-Within m out idle r = grow-Within _ r r (same-Within r)
answer_submit-Within m out (reading n g k) r = grow-Within _ r r (same-Within r)
answer_submit-Within m out (checking n g) r = grow-Within _ r r (same-Within r)
answer_submit-Within m out (submitting n g a) r =
    from_same _ (finish r) r _ refl refl (submit_ended-Within m.now n g a out (finish r))

answer_error-Within : (t : Task) (r : Recovery) → Within 0 r (answer_error t r)
unfolding answer_error Within
answer_error-Within t r = ground arith

row_changes-Within :
    (row : Option SessionRow) (r : Recovery)
    → Within 0 r (record r { row = keep_shown (shown r.row) row })
unfolding Within
row_changes-Within none r = ground arith
row_changes-Within (some s) r = omega arith

-- A step's submissions, the scheduled one with them, are paid for by the failures that it reports and by
-- a submission that was not sent.
step-Within : (m : Moment) (e : Event) (r : Recovery) → Within (deferral e) r (step m e r)
unfolding step
step-Within m (watches path) r = watch-Within path m.now r.observation r refl
step-Within m changes r = changed-Within r.observation r
step-Within m cancels r = cancel-Within m.now r
step-Within m stops_watching r = stop_watching-Within r.observation r
step-Within m (confirms state) r = confirm-Within state r
step-Within m (runs j) r = lock_free-Within m j r.task r
step-Within m (reads native children) r = answer_read-Within m native children r.task r
step-Within m (checks b) r = answer_check-Within m b r.task r
step-Within m (submit_ends out) r = answer_submit-Within m out r.task r
step-Within m answer_fails r = answer_error-Within r.task r
step-Within m timer_fires r = timer_fired-Within r.observation r
step-Within m (row_changes row) r = row_changes-Within row r

pub run-Within : (es : List (Moment × Event)) (r : Recovery) → Within (deferrals es) r (run es r)
unfolding run
run-Within [] r = same-Within r
run-Within ((m, e) ∷ es) r =
    trans-Within (deferral e) (deferrals es) r (step m e r) (run es (step m e r))
      (step-Within m e r) (run-Within es (step m e r))

-- Over any history of a session, whatever the callbacks answer and in whatever order things happen, a
-- retry is submitted at most once for each run that was reported as failed and for each submission
-- that was certainly not sent, and once more if a retry was scheduled before.
pub run-submissions :
    (es : List (Moment × Event)) (delays : List ℕ) (row : Option SessionRow)
    (kept : Option RunFailure) (c : Option Cancellation)
    → submissions (run es (new_recovery delays row kept c)).calls
      ≤ failed_reports (run es (new_recovery delays row kept c)).calls
        + deferrals es
        + pending (shown row)
unfolding Within new_recovery
run-submissions es delays row kept c = omega (arith, run-Within es (new_recovery delays row kept c))
