-- ===== src/Coordination/Continuation/Rounds.antt =====
-- The rounds of apps/server/src/sessions/session-manager.ts that spend the attempts of
-- apps/server/src/coordination/continuation.ts, and all operations as steps.
use uber_coder.Prelude.{
  ℕ, ◌+◌, Bool, not, Option, none, some, List, [], ◌∷◌, Text, leb, if◌then◌else◌, any, same_text,
  filter,
}
use uber_coder.Coordination.Continuation.{
  max_attempts, AssignmentContinuation, RecoveryStatus, scheduled, submitting, submitted, blocked,
  stalled, Reason, AssignmentRecovery, ContinuationSignal, ContinuationControl, given_or,
  set_continuation, set_awaiting, alert_overdue_await, signal_continuation, prepare_continuation,
  pending_continuation,
}

-- How the submission of a continuation ends, for a control that still allows it.
pub data Submission : Type 0 where
  sent : Submission
  deferred uncertain : Reason → Submission

abbrev counted : Option AssignmentRecovery → ℕ
counted none = 0
counted (some r) = r.attempts

-- The session manager counts the attempt before it sends the prompt.
unfoldable pub begin_submission : ℕ → Reason → ℕ → ContinuationControl → ContinuationControl
begin_submission now reason next c = record c {
  recovery = some (record {
    status = submitting;
    attempts = counted c.recovery + 1;
    reason = reason;
    started_at = now;
    next_attempt_at = next;
  });
}

abbrev started_or : Option AssignmentRecovery → ℕ → ℕ
started_or none now = now
started_or (some r) now = r.started_at

-- The conversation of the assignment could not be restored.
unfoldable pub count_failed_restore : ℕ → Reason → ℕ → ContinuationControl → ContinuationControl
count_failed_restore now reason next c =
    let attempts = counted c.recovery + 1 in
    record c {
      recovery = some (record {
        status = if leb max_attempts attempts then stalled else scheduled;
        attempts = attempts;
        reason = reason;
        started_at = started_or c.recovery now;
        next_attempt_at = next;
      });
    }

abbrev with_status : RecoveryStatus → Option AssignmentRecovery → Option AssignmentRecovery
with_status status none = none
with_status status (some r) = some (record r { status = status })

abbrev with_reason : Reason → Option AssignmentRecovery → Option AssignmentRecovery
with_reason reason none = none
with_reason reason (some r) = some (record r { reason = reason })

-- The signals taken by the submission go once it is sent.
unfoldable pub end_submission : Submission → List Text → ContinuationControl → ContinuationControl
end_submission sent consumed c = record c {
  recovery = with_status submitted c.recovery;
  signals = filter (λ s. not (any (λ k. same_text k s.key) consumed)) c.signals;
}
end_submission (deferred reason) consumed c = record c {
  recovery = with_reason reason (with_status scheduled c.recovery);
}
end_submission (uncertain reason) consumed c = record c {
  recovery = with_reason reason (with_status blocked c.recovery);
}

-- A round of the session manager: the control is prepared, and if a continuation is pending, it is
-- submitted, or its conversation cannot be restored.
unfoldable pub work_round :
    ℕ → Option ℕ → Bool → Reason → ℕ → ContinuationControl → ContinuationControl
work_round now idle_since restored reason next c =
    let p = prepare_continuation now idle_since c in
    if pending_continuation now p
    then (if restored
        then begin_submission now reason next p
        else count_failed_restore now reason next p)
    else p

pub data Operation : Type 0 where
  sets : AssignmentContinuation → Option (Option Text) → Operation
  awaits : Option Text → Operation
  alerts : Bool → Bool → Operation
  signals : ContinuationSignal → Operation
  works : Option ℕ → Bool → Reason → ℕ → Operation
  ends : Submission → List Text → Operation

-- An operation at a time; one that throws changes nothing.
unfoldable pub step : ℕ → Operation → ContinuationControl → ContinuationControl
step now (sets continuation supervisor) c = set_continuation now continuation supervisor c
step now (awaits description) c = given_or (set_awaiting now description c) c
step now (alerts exists has_space) c = (alert_overdue_await now exists has_space c).0
step now (signals s) c = (signal_continuation s c).0
step now (works idle_since restored reason next) c =
    work_round now idle_since restored reason next c
step now (ends outcome consumed) c = end_submission outcome consumed c

unfoldable pub run : List (ℕ × Operation) → ContinuationControl → ContinuationControl
run [] c = c
run ((now, o) ∷ os) c = run os (step now o c)
