-- ===== src/Sessions/Monitor/Examples.antt =====
-- The theorems on run monitors, applied to one turn.
use uber_coder.Prelude.{◌≡◌, refl, none, some, [], ◌∷◌}
use uber_coder.Sessions.Monitor.{
  Monitor, ended_interrupted, turn_terminal, observe_all, starts, status_of_end, end_error,
  new_monitor, read, reset,
}
use uber_coder.Sessions.Monitor.Turns.{
  progress_events, last_progress, running_run, observed_turn-ends, Reports, read_observed,
}

abbrev watched : Monitor
watched = record { protocol = some (running_run (1 ∷ []) 10 none); transcript = some (5 ∷ []) }

observed_turn-ends_example :
    (turn_terminal []
      (1 ∷ [])
      ended_interrupted
      none
      30
      (observe_all [] (starts (1 ∷ []) 10 ∷ progress_events (20 ∷ 25 ∷ [])) new_monitor)).protocol
    ≡ some (record {
      turn_id = 1 ∷ [];
      timestamp = 30;
      started_at = 10;
      progress_at = last_progress none (20 ∷ 25 ∷ []);
      status = status_of_end ended_interrupted;
      error = end_error [] ended_interrupted none;
    })
observed_turn-ends_example =
    observed_turn-ends [] (1 ∷ []) 10 30 (20 ∷ 25 ∷ []) ended_interrupted none new_monitor

read_observed_example :
    let seen = observe_all [] (starts (1 ∷ []) 10 ∷ progress_events (20 ∷ [])) watched in
    let over = turn_terminal [] (1 ∷ []) ended_interrupted none 30 seen in
    let later = running_run (2 ∷ []) 50 none in
    let live = running_run (1 ∷ []) 10 (some 20) in
    Reports later live (read (some later) seen)
    × (read none seen ≡ some live)
    × Reports later
        (record live { timestamp = 30; status = status_of_end ended_interrupted })
        (read (some later) over)
    × (read (some later) (reset over) ≡ some later)
read_observed_example =
    read_observed [] (1 ∷ []) 10 30 (20 ∷ []) ended_interrupted none (running_run (2 ∷ []) 50 none)
      watched refl
