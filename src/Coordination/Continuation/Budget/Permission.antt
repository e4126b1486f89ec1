-- ===== src/Coordination/Continuation/Budget/Permission.antt =====
-- What changes the permission of an unattended assignment, and what takes an attempt back.
use uber_coder.Prelude.{
  ℕ, ◌≤◌, ◌≡◌, refl, ◌∙◌, Bool, Option, none, some, List, if◌then◌else◌, arith, Text, ◌≢◌,
}
use uber_coder.Coordination.Continuation.{
  AssignmentContinuation, AssignmentRecovery, ContinuationControl, ContinuationSignal, set_awaiting,
  alert_overdue_await, signal_continuation, first_attempt, go_on, prepare_recovery, prepared,
  prepare_enabled, prepare_continuation, pending_continuation, Reason,
}
use uber_coder.Coordination.Continuation.Rounds.{
  begin_submission, count_failed_restore, end_submission, sent, deferred, uncertain, work_round,
  Operation, sets, awaits, alerts, signals, works, ends, step,
}
use uber_coder.Coordination.Continuation.Budget.{attempts_of}

prepared-grows :
    (now : ℕ) (idle : Option ℕ) (enabled : ℕ) (ss : List ContinuationSignal)
    (o : Option AssignmentRecovery)
    → attempts_of o ≤ attempts_of (prepared now idle enabled ss o)
unfolding prepared first_attempt prepare_recovery go_on
prepared-grows now idle enabled ss none = ground arith
prepared-grows now idle enabled ss (some r) = ground arith

prepare-grows :
    (now : ℕ) (idle : Option ℕ) (e : Option ℕ) (c : ContinuationControl)
    → ((prepare_enabled now idle e c).continuation ≡ c.continuation)
      × (attempts_of c.recovery ≤ attempts_of (prepare_enabled now idle e c).recovery)
unfolding prepare_enabled
prepare-grows now idle none c = ground arith
prepare-grows now idle (some e) c = ground (arith, prepared-grows now idle e c.signals c.recovery)

attempt-grows :
    (now : ℕ) (pending restored : Bool) (reason : Reason) (next : ℕ) (c : ContinuationControl)
    → ((if pending
          then (if restored
              then begin_submission now reason next c
              else count_failed_restore now reason next c)
          else c).continuation
        ≡ c.continuation)
      × (attempts_of c.recovery
          ≤ attempts_of
              (if pending
                then (if restored
                    then begin_submission now reason next c
                    else count_failed_restore now reason next c)
                else c).recovery)
unfolding begin_submission count_failed_restore
attempt-grows now pending restored reason next c = ground arith

-- Only a new permission changes the permission or takes an attempt back: whatever a wait, an alert, a
-- signal, a round or the end of a submission does, the continuation stays what it was and no fewer
-- attempts are counted.
pub step-keeps_permission :
    (now : ℕ) (o : Operation) (c : ContinuationControl)
    → ((k : AssignmentContinuation) (supervisor : Option (Option Text)) → o ≢ sets k supervisor)
    → ((step now o c).continuation ≡ c.continuation)
      × (attempts_of c.recovery ≤ attempts_of (step now o c).recovery)
unfolding step set_awaiting alert_overdue_await signal_continuation end_submission work_round
    prepare_continuation
step-keeps_permission now (sets k supervisor) c n = absurd (n k supervisor refl)
step-keeps_permission now (awaits none) c n = ground arith
step-keeps_permission now (awaits (some t)) c n = ground arith
step-keeps_permission now (alerts exists has_space) c n = ground arith
step-keeps_permission now (signals s) c n = ground arith
step-keeps_permission now (works idle restored reason next) c n =
    let p = prepare_enabled now idle c.enabled_at c in
    let prepared_grows = prepare-grows now idle c.enabled_at c in
    let attempt_grows = attempt-grows now (pending_continuation now p) restored reason next p in
    (attempt_grows.0 ∙ prepared_grows.0, omega (arith, attempt_grows.1, prepared_grows.1))
step-keeps_permission now (ends sent consumed) c n = ground arith
step-keeps_permission now (ends (deferred reason) consumed) c n = ground arith
step-keeps_permission now (ends (uncertain reason) consumed) c n = ground arith
