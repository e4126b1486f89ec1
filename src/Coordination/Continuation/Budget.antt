-- ===== src/Coordination/Continuation/Budget.antt =====
-- What bounds an unattended assignment.
pub mod Permission
use uber_coder.Prelude.{
  ℕ, zero, suc, ◌-◌, ◌≤◌, ◌<◌, ◌≡◌, refl, ◌∙◌, inl, inr, Bool, true, ◌&&◌, not, Option, none, some,
  List, [], ◌∷◌, ◌++◌, if◌then◌else◌, length, drop, filter, is_some, arith, Text, same_text, any,
  ◌≢◌, Bool-cases,
}
use uber_coder.Coordination.Continuation.{
  max_attempts, AssignmentContinuation, waiting_for_input, unattended, is_unattended, is_due,
  AssignmentRecovery, ContinuationControl, ContinuationSignal, new_control, set_continuation,
  set_awaiting, alert_overdue_await, last_of, signal_continuation, first_attempt, go_on,
  prepare_recovery, prepared, prepare_enabled, prepare_continuation, pending_continuation, Reason,
}
use uber_coder.Coordination.Continuation.Rounds.{
  begin_submission, count_failed_restore, end_submission, Submission, sent, deferred, uncertain,
  work_round, Operation, sets, awaits, alerts, signals, works, ends, step, run,
}

abbrev pub attempts_of : Option AssignmentRecovery → ℕ
attempts_of none = 0
attempts_of (some r) = r.attempts

pub record IsBounded (c : ContinuationControl) : Type 0 where
  -- Unattended work has the time of its permission.
  pub permitted : is_unattended c.continuation ≡ is_some c.enabled_at
  pub spent : attempts_of c.recovery ≤ max_attempts
  pub few_signals : length c.signals ≤ 16
  pub few_seen : length c.seen_signals ≤ 128

length-drop {ℓ} : {A : Type ℓ} (n : ℕ) (xs : List A) → length (drop n xs) ≡ length xs - n
length-drop zero xs = omega arith
length-drop (suc n) [] = omega arith
length-drop (suc n) (x ∷ xs) = omega (arith, length-drop n xs)

length-last_of {ℓ} : {A : Type ℓ} (n : ℕ) (xs : List A) → length (last_of n xs) ≤ n
length-last_of n xs = omega (arith, length-drop (length xs - n) xs)

length-filter {ℓ} : {A : Type ℓ} (p : A → Bool) (xs : List A) → length (filter p xs) ≤ length xs
length-filter p [] = omega arith
length-filter p (x ∷ xs) = ground (arith, length-filter p xs)

signal-IsBounded :
    (s : ContinuationSignal) (c : ContinuationControl)
    → IsBounded c
    → IsBounded (signal_continuation s c).0
unfolding signal_continuation
signal-IsBounded s c b = ground (
  arith,
  b.permitted,
  b.spent,
  b.few_signals,
  b.few_seen,
  length-last_of 128 (c.seen_signals ++ s.key ∷ []),
  length-last_of 16 (c.signals ++ s ∷ []),
)

prepared-attempts :
    (now : ℕ) (idle : Option ℕ) (enabled : ℕ) (ss : List ContinuationSignal)
    (o : Option AssignmentRecovery)
    → attempts_of (prepared now idle enabled ss o) ≤ attempts_of o
unfolding prepared first_attempt prepare_recovery go_on
prepared-attempts now idle enabled ss none = ground arith
prepared-attempts now idle enabled ss (some r) = ground arith

-- A prepared recovery that is due has an attempt left.
prepared-is_due :
    (now later : ℕ) (idle : Option ℕ) (enabled : ℕ) (ss : List ContinuationSignal)
    (o : Option AssignmentRecovery)
    → is_due later (prepared now idle enabled ss o) ≡ true
    → attempts_of (prepared now idle enabled ss o) < max_attempts
unfolding prepared first_attempt prepare_recovery go_on
prepared-is_due now later idle enabled ss none h = ground (arith, h)
prepared-is_due now later idle enabled ss (some r) h = ground (arith, h)

prepare_enabled-IsBounded :
    (now : ℕ) (idle : Option ℕ) (e : Option ℕ) (c : ContinuationControl)
    → IsBounded c
    → IsBounded (prepare_enabled now idle e c)
unfolding prepare_enabled
prepare_enabled-IsBounded now idle none c b = b
prepare_enabled-IsBounded now idle (some e) c b = ground (
  arith,
  b.permitted,
  b.spent,
  b.few_signals,
  b.few_seen,
  prepared-attempts now idle e c.signals c.recovery,
)

-- What is pending once the control is prepared has an attempt left, in an unattended assignment that
-- awaits nothing.
pending-attempts :
    (now : ℕ) (idle : Option ℕ) (e : Option ℕ) (c : ContinuationControl)
    → is_unattended c.continuation ≡ is_some e
    → pending_continuation now (prepare_enabled now idle e c) ≡ true
    → attempts_of (prepare_enabled now idle e c).recovery < max_attempts
unfolding prepare_enabled pending_continuation
pending-attempts now idle none c u h = ground (arith, u, h)
pending-attempts now idle (some e) c u h =
    elim (Bool-cases (is_unattended c.continuation && not (is_some c.awaiting))) [
      | inl q ↦ rw q (prepared-is_due now now idle e c.signals c.recovery (ground (arith, q, h)))
      | inr q ↦ ground (arith, u, h, q)
    ]

attempt-IsBounded :
    (now : ℕ) (restored : Bool) (reason : Reason) (next : ℕ) (c : ContinuationControl)
    → IsBounded c
    → attempts_of c.recovery < max_attempts
    → IsBounded (
        if restored
        then begin_submission now reason next c
        else count_failed_restore now reason next c)
unfolding begin_submission count_failed_restore
attempt-IsBounded now restored reason next c b l =
    ground (arith, b.permitted, b.spent, b.few_signals, b.few_seen, l)

work_round-IsBounded :
    (now : ℕ) (idle : Option ℕ) (restored : Bool) (reason : Reason) (next : ℕ)
    (c : ContinuationControl)
    → IsBounded c
    → IsBounded (work_round now idle restored reason next c)
unfolding work_round prepare_continuation
work_round-IsBounded now idle restored reason next c b =
    elim (Bool-cases (pending_continuation now (prepare_enabled now idle c.enabled_at c))) [
      | inl h ↦
          rw (h, work_round)
            (attempt-IsBounded now restored reason next (prepare_enabled now idle c.enabled_at c)
              (prepare_enabled-IsBounded now idle c.enabled_at c b)
              (pending-attempts now idle c.enabled_at c b.permitted h))
      | inr h ↦ rw (h, work_round) (prepare_enabled-IsBounded now idle c.enabled_at c b)
    ]

end-IsBounded :
    (outcome : Submission) (consumed : List Text) (c : ContinuationControl)
    → IsBounded c
    → IsBounded (end_submission outcome consumed c)
unfolding end_submission
end-IsBounded sent consumed c b = ground (
  arith,
  b.permitted,
  b.spent,
  b.few_signals,
  b.few_seen,
  length-filter (λ s. not (any (λ k. same_text k s.key) consumed)) c.signals,
)
end-IsBounded (deferred reason) consumed c b =
    ground (arith, b.permitted, b.spent, b.few_signals, b.few_seen)
end-IsBounded (uncertain reason) consumed c b =
    ground (arith, b.permitted, b.spent, b.few_signals, b.few_seen)

set-IsBounded :
    (now : ℕ) (k : AssignmentContinuation) (supervisor : Option (Option Text))
    (c : ContinuationControl)
    → IsBounded c
    → IsBounded (set_continuation now k supervisor c)
unfolding set_continuation
set-IsBounded now waiting_for_input supervisor c b = ground (arith, b.few_seen)
set-IsBounded now unattended supervisor c b = ground (arith, b.few_seen)

await-IsBounded :
    (now : ℕ) (description : Option Text) (c : ContinuationControl)
    → IsBounded c
    → IsBounded (step now (awaits description) c)
unfolding step set_awaiting
await-IsBounded now none c b = ground (arith, b.permitted, b.spent, b.few_signals, b.few_seen)
await-IsBounded now (some t) c b = ground (arith, b.permitted, b.spent, b.few_signals, b.few_seen)

alert-IsBounded :
    (now : ℕ) (exists has_space : Bool) (c : ContinuationControl)
    → IsBounded c
    → IsBounded (alert_overdue_await now exists has_space c).0
unfolding alert_overdue_await
alert-IsBounded now exists has_space c b =
    ground (arith, b.permitted, b.spent, b.few_signals, b.few_seen)

step-IsBounded :
    (now : ℕ) (o : Operation) (c : ContinuationControl) → IsBounded c → IsBounded (step now o c)
unfolding step
step-IsBounded now (sets k supervisor) c b = set-IsBounded now k supervisor c b
step-IsBounded now (awaits description) c b = await-IsBounded now description c b
step-IsBounded now (alerts exists has_space) c b = alert-IsBounded now exists has_space c b
step-IsBounded now (signals s) c b = signal-IsBounded s c b
step-IsBounded now (works idle restored reason next) c b =
    work_round-IsBounded now idle restored reason next c b
step-IsBounded now (ends outcome consumed) c b = end-IsBounded outcome consumed c b

run_from-IsBounded :
    (os : List (ℕ × Operation)) (c : ContinuationControl) → IsBounded c → IsBounded (run os c)
unfolding run
run_from-IsBounded [] c b = b
run_from-IsBounded ((now, o) ∷ os) c b =
    run_from-IsBounded os (step now o c) (step-IsBounded now o c b)

-- Over any history of permissions, waits, alerts, signals and rounds, an unattended assignment has the
-- time of its permission, no more than three attempts are counted, and no more than 16 signals and 128
-- of their keys are kept.
pub run-IsBounded : (os : List (ℕ × Operation)) → IsBounded (run os new_control)
unfolding new_control
run-IsBounded os = run_from-IsBounded os new_control (ground arith)
