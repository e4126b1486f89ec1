-- ===== src/Coordination/Continuation.antt =====
-- apps/server/src/coordination/continuation.ts: whether an assignment may go on unattended. A time is the
-- milliseconds that `Date.parse` reads in it; the control is what its row of the meta table holds. With it
-- the rounds of apps/server/src/sessions/session-manager.ts that spend its attempts.
pub mod Rounds
pub mod Budget
mod Examples
use uber_coder.Prelude.{
  ℕ, suc, ◌+◌, ◌-◌, max, Bool, true, false, not, ◌&&◌, ◌||◌, Option, none, some, List, [], ◌∷◌,
  ◌++◌, Text, ltb, leb, if◌then◌else◌, length, drop, any, same_text, is_empty, is_some, filter,
}

-- The length of `CONTINUATION_DELAYS_MS`, and its first delay.
abbrev pub max_attempts : ℕ
max_attempts = 3

abbrev pub first_delay_ms : ℕ
first_delay_ms = 15000

abbrev pub await_alert_ms : ℕ
await_alert_ms = 14400000

abbrev pub unattended_idle_ms : ℕ
unattended_idle_ms = 300000

pub data AssignmentContinuation : Type 0 where
  waiting_for_input unattended : AssignmentContinuation

pub data RecoveryStatus : Type 0 where
  scheduled submitting submitted blocked stalled : RecoveryStatus

pub data Reason : Type 0 where
  interrupted exhausted idle_unfinished : Reason
  signalled : Text → Reason

pub record AssignmentRecovery : Type 0 where
  pub status : RecoveryStatus
  pub attempts : ℕ
  pub reason : Reason
  pub started_at : ℕ
  pub next_attempt_at : ℕ

-- `timestamp` is `none` where it is no time.
pub record ContinuationSignal : Type 0 where
  pub key : Text
  pub timestamp : Option ℕ
  pub source : Text
  pub reason : Text

pub record Awaiting : Type 0 where
  pub description : Text
  pub started_at : ℕ
  pub alerted : Bool

pub record ContinuationControl : Type 0 where
  pub continuation : AssignmentContinuation
  pub supervisor_id : Option Text
  pub awaiting : Option Awaiting
  pub revision : ℕ
  pub enabled_at : Option ℕ
  pub signals : List ContinuationSignal
  pub seen_signals : List Text
  pub recovery : Option AssignmentRecovery

-- `continuationControl` of an assignment without a row.
unfoldable pub new_control : ContinuationControl
new_control = record {
  continuation = waiting_for_input;
  supervisor_id = none;
  awaiting = none;
  revision = 0;
  enabled_at = none;
  signals = [];
  seen_signals = [];
  recovery = none;
}

abbrev pub is_unattended : AssignmentContinuation → Bool
is_unattended waiting_for_input = false
is_unattended unattended = true

-- An argument that may be left out.
abbrev pub given_or {ℓ} : {A : Type ℓ} → Option A → A → A
given_or none a = a
given_or (some b) a = b

-- `setContinuation`
unfoldable pub set_continuation :
    ℕ → AssignmentContinuation → Option (Option Text) → ContinuationControl → ContinuationControl
set_continuation now continuation supervisor c = record c {
  continuation = continuation;
  supervisor_id = given_or supervisor c.supervisor_id;
  revision = c.revision + 1;
  enabled_at = if is_unattended continuation then some now else none;
  signals = [];
  recovery = none;
  awaiting = none;
}

-- A declared wait acknowledges the submitted turn.
abbrev acknowledge : Option AssignmentRecovery → Option AssignmentRecovery
acknowledge none = none
acknowledge (some r) = elim r.status [
  | submitted ↦ some (record r { status = scheduled })
  | _ ↦ some r
]

-- `setAwaiting`, `none` where it throws.
unfoldable pub set_awaiting : ℕ → Option Text → ContinuationControl → Option ContinuationControl
set_awaiting now none c = some (record c { awaiting = none; revision = c.revision + 1 })
set_awaiting now (some description) c =
    if is_unattended c.continuation
    then some (record c {
      awaiting = some (record { description = description; started_at = now; alerted = false });
      recovery = acknowledge c.recovery;
      revision = c.revision + 1;
    })
    else none

abbrev is_overdue : ℕ → Option Awaiting → Bool
is_overdue now none = false
is_overdue now (some a) = not a.alerted && leb await_alert_ms (now - a.started_at)

abbrev mark_alerted : Option Awaiting → Option Awaiting
mark_alerted none = none
mark_alerted (some a) = some (record a { alerted = true })

-- `alertOverdueAwait`, for whether the supervisor's assignment exists and its inbox has space; and
-- whether a message was sent.
unfoldable pub alert_overdue_await :
    ℕ → Bool → Bool → ContinuationControl → ContinuationControl × Bool
alert_overdue_await now exists has_space c =
    if is_unattended c.continuation
      && is_overdue now c.awaiting
      && is_some c.supervisor_id
      && exists
      && has_space
    then (record c { awaiting = mark_alerted c.awaiting }, true)
    else (c, false)

-- `list.slice(-n)`
abbrev pub last_of {ℓ} : {A : Type ℓ} → ℕ → List A → List A
last_of n xs = drop (length xs - n) xs

abbrev since_enabled : Option ℕ → Option ℕ → Bool
since_enabled none enabled = false
since_enabled (some observed) none = false
since_enabled (some observed) (some enabled) = leb enabled observed

-- `signalContinuation`, and whether the signal is taken.
unfoldable pub signal_continuation :
    ContinuationSignal → ContinuationControl → ContinuationControl × Bool
signal_continuation s c =
    if is_unattended c.continuation
      && since_enabled s.timestamp c.enabled_at
      && not (any (λ k. same_text k s.key) c.seen_signals)
    then (
      record c {
        seen_signals = last_of 128 (c.seen_signals ++ s.key ∷ []);
        signals = last_of 16 (c.signals ++ s ∷ []);
      },
      true,
    )
    else (c, false)

abbrev last_reason : List ContinuationSignal → Reason
last_reason [] = idle_unfinished
last_reason (s ∷ []) = signalled s.reason
last_reason (s ∷ (t ∷ ts)) = last_reason (t ∷ ts)

abbrev number_or : Option ℕ → ℕ → ℕ
number_or none n = n
number_or (some m) n = m

-- The first attempt, once the assignment has been idle or a signal came.
unfoldable pub first_attempt :
    ℕ → Option ℕ → ℕ → List ContinuationSignal → Option AssignmentRecovery
first_attempt now idle_since enabled_at signals =
    if is_empty signals && ltb (now - max (number_or idle_since 0) enabled_at) unattended_idle_ms
    then none
    else some (record {
      status = scheduled;
      attempts = 0;
      reason = last_reason signals;
      started_at = now;
      next_attempt_at = now + first_delay_ms;
    })

-- A recovery that is neither being submitted nor stopped.
unfoldable pub go_on : ℕ → AssignmentRecovery → AssignmentRecovery
go_on now r =
    if leb max_attempts r.attempts
    then record r { status = stalled; reason = exhausted }
    else elim r.status [
      | submitted ↦ if leb r.next_attempt_at now then record r { status = scheduled } else r
      | _ ↦ r
    ]

unfoldable pub prepare_recovery : ℕ → AssignmentRecovery → RecoveryStatus → AssignmentRecovery
prepare_recovery now r submitting = record r { status = blocked; reason = interrupted }
prepare_recovery now r blocked = r
prepare_recovery now r stalled = r
prepare_recovery now r scheduled = go_on now r
prepare_recovery now r submitted = go_on now r

unfoldable pub prepared :
    ℕ
    → Option ℕ
    → ℕ
    → List ContinuationSignal
    → Option AssignmentRecovery
    → Option AssignmentRecovery
prepared now idle_since enabled_at signals none = first_attempt now idle_since enabled_at signals
prepared now idle_since enabled_at signals (some r) = some (prepare_recovery now r r.status)

unfoldable pub prepare_enabled : ℕ → Option ℕ → Option ℕ → ContinuationControl → ContinuationControl
prepare_enabled now idle_since none c = c
prepare_enabled now idle_since (some enabled_at) c =
    if is_unattended c.continuation && not (is_some c.awaiting)
    then record c { recovery = prepared now idle_since enabled_at c.signals c.recovery }
    else c

-- `prepareContinuation`
unfoldable pub prepare_continuation : ℕ → Option ℕ → ContinuationControl → ContinuationControl
prepare_continuation now idle_since c = prepare_enabled now idle_since c.enabled_at c

abbrev pub is_due : ℕ → Option AssignmentRecovery → Bool
is_due now none = false
is_due now (some r) = elim r.status [ scheduled ↦ leb r.next_attempt_at now | _ ↦ false ]

-- `pendingContinuation`
unfoldable pub pending_continuation : ℕ → ContinuationControl → Bool
pending_continuation now c =
    is_unattended c.continuation && not (is_some c.awaiting) && is_due now c.recovery
