-- ===== src/Sessions/Working/Idle.antt =====
-- When the idle timer completes a row, and that the working flag settles.
use uber_coder.Prelude.{
  same_text_refl, ℕ, ◌≡◌, refl, ap, ◌∙◌, Bool, true, false, not, ◌&&◌, ◌||◌, Option, none, some,
  Text, arith, is_some, Bool-cases, inl, inr, or_else,
}
use uber_coder.Sessions.Working.{
  BoundSession, same_time, failure_stopped, is_recent_timestamp, same_bool, next_working_state,
  clear, update, IdleInput, is_running, settle_idle, next_idle_expiry_decision,
}

same_time_refl : (o : Option Text) → same_time o o ≡ true
same_time_refl none = refl
same_time_refl (some t) = same_text_refl t

same_bool_refl : (b : Bool) → same_bool b b ≡ true
same_bool_refl true = refl
same_bool_refl false = refl

abbrev pub updated_or : BoundSession → Option BoundSession → BoundSession
updated_or s none = s
updated_or s (some t) = t

-- The flag says that a turn runs and no failure has stopped the session; the row that carries it is
-- not written again for the same turn.
pub next_working_state-settles :
    (s : BoundSession) (turn : Bool) (at later : Text)
    → let t = updated_or s (next_working_state s turn at).updated_session in
      (t.is_working ≡ not (failure_stopped s.run_failure) && turn)
      × ((next_working_state t turn later).updated_session ≡ none)
      × ((next_working_state t turn later).expiry_heartbeat_at
          ≡ (next_working_state s turn at).expiry_heartbeat_at)
unfolding next_working_state
next_working_state-settles s turn at later =
    elim (Bool-cases (same_bool s.is_working (not (failure_stopped s.run_failure) && turn))) [
      | inl e ↦ rw e (ground arith, rw e refl, refl)
      | inr e ↦
          rw e (refl, rw (same_bool_refl (not (failure_stopped s.run_failure) && turn)) refl, refl)
    ]

-- Where the idle timer completes a row: no turn is known to run, no failure has stopped the session,
-- and the latest output was not recent; then the flag is down, and that output, if there was one, is
-- the one completed.
pub next_idle_expiry_decision-completes :
    (parse : Text → Option ℕ) (s t : BoundSession) (input : IdleInput)
    → next_idle_expiry_decision parse s input ≡ update t
    → (is_running input.turn_is_working ≡ false)
      × (failure_stopped s.run_failure ≡ false)
      × (is_recent_timestamp parse s.last_output_at input.now input.idle_ms ≡ false)
      × (t.is_working ≡ false)
      × (t.last_completed_at ≡ or_else s.last_output_at s.last_completed_at)
unfolding next_idle_expiry_decision settle_idle is_recent_timestamp
next_idle_expiry_decision-completes parse s t input h = ground arith

completed-output :
    (parse : Text → Option ℕ) (s t : BoundSession) (input : IdleInput)
    → next_idle_expiry_decision parse s input ≡ update t
    → t.last_output_at ≡ s.last_output_at
unfolding next_idle_expiry_decision settle_idle is_recent_timestamp
completed-output parse s t input h = ground arith

same_time-or_else : (o p : Option Text) → not (is_some o) || same_time o (or_else o p) ≡ true
same_time-or_else none p = refl
same_time-or_else (some t) p = same_text_refl t

quiet-clear :
    (parse : Text → Option ℕ) (t : BoundSession) (later : IdleInput)
    → t.is_working ≡ false
    → not (is_some t.last_output_at) || same_time t.last_output_at t.last_completed_at ≡ true
    → is_running later.turn_is_working ≡ false
    → next_idle_expiry_decision parse t later ≡ clear
unfolding next_idle_expiry_decision
quiet-clear parse t later w q r = ground arith

-- Once the idle timer has completed a row, a later timer with no turn known to run has nothing to do.
pub next_idle_expiry_decision-settled :
    (parse : Text → Option ℕ) (s t : BoundSession) (input later : IdleInput)
    → next_idle_expiry_decision parse s input ≡ update t
    → is_running later.turn_is_working ≡ false
    → next_idle_expiry_decision parse t later ≡ clear
next_idle_expiry_decision-settled parse s t input later h r =
    let (_, _, _, w, e) = next_idle_expiry_decision-completes parse s t input h in
    let o = completed-output parse s t input h in
    quiet-clear parse t later w
      (ap (λ x. not (is_some x) || same_time x t.last_completed_at) o
        ∙ ap (λ x. not (is_some s.last_output_at) || same_time s.last_output_at x) e
        ∙ same_time-or_else s.last_output_at s.last_completed_at)
      r
