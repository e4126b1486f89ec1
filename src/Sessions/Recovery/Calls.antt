-- ===== src/Sessions/Recovery/Calls.antt =====
-- The methods of apps/server/src/sessions/run-recovery.ts that its owner calls.
use uber_coder.Prelude.{
  ℕ, suc, Bool, true, false, not, ◌&&◌, ◌||◌, Option, none, some, List, [], ◌∷◌, Text, ltb, ◌==◌,
  if◌then◌else◌, same_text, is_some,
}
use uber_coder.Sessions.Recovery.{
  process_exited, ErrorCode, server_overloaded, server_unavailable, unknown, other_code,
  process_ended, ProviderRunState, cancelled_by_user, RunFailure, SessionRow, Observation,
  Cancellation, refreshes, After, nothing, idle, reading, locks, Recovery, Moment, note, budget,
  is_stopped, has, save, clear_timer, stop_failure, completed, failed,
}
use uber_coder.Sessions.Recovery.Retry.{finish}

-- A recovery that nothing was asked of yet, of a session's row and what was kept for it.
unfoldable pub new_recovery :
    List ℕ → Option SessionRow → Option RunFailure → Option Cancellation → Recovery
new_recovery delays row kept cancellation = record {
  delays = delays;
  observation = none;
  detached = [];
  next_serial = 0;
  row = row;
  budget_row = kept;
  cancellation = cancellation;
  task = idle;
  calls = [];
}

unfoldable pub new_observation : ℕ → Text → ℕ → Option ProviderRunState → Observation
new_observation serial path now process_failure = record {
  serial = serial;
  path = path;
  attached_at = now;
  seen = none;
  timer = none;
  generation = 0;
  last_turn_id = none;
  last_status = none;
  run = none;
  process_failure = process_failure;
}

unfoldable pub add_observation : Text → ℕ → Option ProviderRunState → Recovery → Recovery
add_observation path now process_failure r = record r {
  observation = some (new_observation r.next_serial path now process_failure);
  next_serial = suc r.next_serial;
}

-- `changed`
unfoldable pub changed : Option Observation → Recovery → Recovery
changed none r = r
changed (some o) r = note (locks refreshes) r

-- `stopWatching`
unfoldable pub stop_watching : Option Observation → Recovery → Recovery
stop_watching none r = r
stop_watching (some o) r = record r {
  observation = none;
  detached = record o { timer = none } ∷ r.detached;
}

abbrev is_exit : ErrorCode → Bool
is_exit process_exited = true
is_exit server_overloaded = false
is_exit server_unavailable = false
is_exit unknown = false
is_exit (other_code t) = false

-- The process's failure that the budget tells.
unfoldable pub earlier_exit : Option RunFailure → Option ProviderRunState
earlier_exit none = none
earlier_exit (some f) =
    if is_exit f.code
    then some (record {
      turn_id = f.turn_id;
      timestamp = f.failed_at;
      started_at = some f.failed_at;
      progress_at = none;
      status = failed;
      error = some (record { code = f.code; message = f.message });
    })
    else none

-- `watch` for a path that is not the one watched.
unfoldable pub watch_anew : Text → ℕ → Recovery → Recovery
watch_anew path now r =
    let s = stop_watching r.observation r in
    let added = add_observation path now (earlier_exit (budget s)) s in
    changed added.observation added

-- `watch`
unfoldable pub watch : Text → ℕ → Option Observation → Recovery → Recovery
watch path now none r = watch_anew path now r
watch path now (some o) r =
    if same_text o.path path
    then r
    else if is_some o.process_failure
    then note (locks refreshes) (record r { observation = some (record o { path = path }) })
    else watch_anew path now r

-- `confirmCompletion`, for the observation's run and the row.
abbrev is_confirmed : ProviderRunState → Option ProviderRunState → Option SessionRow → Bool
is_confirmed run none row = false
is_confirmed run (some seen) none = false
is_confirmed run (some seen) (some s) =
    elim run.status [ completed ↦ same_text seen.turn_id run.turn_id | _ ↦ false ]
    && (seen.timestamp == run.timestamp)
    && s.should_restore
    && s.is_bound
    && elim s.last_response_at [ none ↦ false | some t ↦ not (ltb t run.timestamp) ]

abbrev run_of : Option Observation → Option ProviderRunState
run_of none = none
run_of (some o) = o.run

unfoldable pub confirm_completion : ProviderRunState → Recovery → Recovery
confirm_completion run r =
    if is_confirmed run (run_of r.observation) r.row
    then (if is_some (budget r) then save none (clear_timer r) else clear_timer r)
    else r

abbrev bump : Option Observation → Option Observation
bump none = none
bump (some o) = some (record o { generation = suc o.generation; timer = none })

abbrev turn_of : Option ProviderRunState → Option Text
turn_of none = none
turn_of (some run) = some run.turn_id

unfoldable pub cancel_failure : Option RunFailure → Recovery → Recovery
cancel_failure none r = r
cancel_failure (some f) r =
    if is_stopped f.status then r else save (some (stop_failure cancelled_by_user f)) r

-- `cancel`
unfoldable pub cancel : ℕ → Recovery → Recovery
cancel now r =
    let marked = record r {
      observation = bump r.observation;
      cancellation = some (record { turn_id = turn_of (run_of r.observation); at = now });
    } in
    cancel_failure (budget marked) marked

-- The lock's holder starts to read the monitor, and returns to what asked for it.
unfoldable pub start_refresh : Option Observation → After → Recovery → Recovery
start_refresh none k r = finish r
start_refresh (some o) k r = record r { task = reading o.serial o.generation k }

-- `processExited`, of the row's session.
unfoldable pub exit_failure : Text → ℕ → ProviderRunState
exit_failure process now = record {
  turn_id = process;
  timestamp = now;
  started_at = some now;
  progress_at = none;
  status = failed;
  error = some (record { code = process_exited; message = process_ended });
}

abbrev mark_exit : Text → ℕ → Option Observation → Option Observation
mark_exit process now none = none
mark_exit process now (some o) =
    if is_some o.process_failure
    then some o
    else some (record o { process_failure = some (exit_failure process now) })

unfoldable pub note_exit : Text → ℕ → Recovery → Recovery
note_exit process now r =
    let watched = if is_some r.observation then r else add_observation [] now none r in
    let marked = record watched { observation = mark_exit process now watched.observation } in
    start_refresh marked.observation nothing marked

unfoldable pub process_exit : Moment → Option SessionRow → Recovery → Recovery
process_exit m none r = finish r
process_exit m (some s) r =
    if not m.may_recover || has is_stopped (budget r) then finish r else note_exit s.process m.now r

abbrev pub generation_of : Option Observation → ℕ
generation_of none = 0
generation_of (some o) = o.generation
