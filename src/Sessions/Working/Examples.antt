-- ===== src/Sessions/Working/Examples.antt =====
-- The theorems on the working flag, applied to a session whose output has been quiet.
use uber_coder.Prelude.{
  ℕ, ◌≡◌, refl, true, false, not, ◌&&◌, Option, none, some, [], ◌∷◌, Text, or_else,
}
use uber_coder.Sessions.Working.{
  BoundSession, IdleInput, failure_stopped, is_recent_timestamp, is_running, next_working_state,
  next_idle_expiry_decision, settle_idle, clear, update,
}
use uber_coder.Sessions.Working.Idle.{
  updated_or, next_working_state-settles, next_idle_expiry_decision-completes,
  next_idle_expiry_decision-settled,
}

-- Times are texts of one number.
abbrev number : Text → Option ℕ
number [] = none
number (n ∷ t) = some n

abbrev busy : BoundSession
busy = record {
  run_failure = none;
  is_working = true;
  last_output_at = some (100 ∷ []);
  last_completed_at = none;
  updated_at = 100 ∷ [];
}

abbrev quiet : BoundSession
quiet = record busy {
  is_working = false;
  last_completed_at = some (100 ∷ []);
  updated_at = 9000 ∷ [];
}

abbrev expiry : IdleInput
expiry = record {
  expected_heartbeat_at = 100 ∷ [];
  now = 9000 ∷ [];
  idle_ms = 5000;
  turn_is_working = some false;
  turn_unidentified = false;
}

busy-quiet : next_idle_expiry_decision number busy expiry ≡ update quiet
unfolding next_idle_expiry_decision settle_idle is_recent_timestamp
busy-quiet = refl

next_working_state-settles_example :
    let t = updated_or busy (next_working_state busy false (200 ∷ [])).updated_session in
    (t.is_working ≡ not (failure_stopped busy.run_failure) && false)
    × ((next_working_state t false (300 ∷ [])).updated_session ≡ none)
    × ((next_working_state t false (300 ∷ [])).expiry_heartbeat_at
        ≡ (next_working_state busy false (200 ∷ [])).expiry_heartbeat_at)
next_working_state-settles_example = next_working_state-settles busy false (200 ∷ []) (300 ∷ [])

next_idle_expiry_decision-completes_example :
    (is_running expiry.turn_is_working ≡ false)
    × (failure_stopped busy.run_failure ≡ false)
    × (is_recent_timestamp number busy.last_output_at expiry.now expiry.idle_ms ≡ false)
    × (quiet.is_working ≡ false)
    × (quiet.last_completed_at ≡ or_else busy.last_output_at busy.last_completed_at)
next_idle_expiry_decision-completes_example =
    next_idle_expiry_decision-completes number busy quiet expiry busy-quiet

next_idle_expiry_decision-settled_example : next_idle_expiry_decision number quiet expiry ≡ clear
next_idle_expiry_decision-settled_example =
    next_idle_expiry_decision-settled number busy quiet expiry expiry busy-quiet refl
