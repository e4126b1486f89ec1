-- ===== src/Sessions/Recovery/Replays/Tried.antt =====
-- A retry that is asked for, submitted and ended.
use uber_coder.Prelude.{
  ℕ, ◌+◌, suc, ◌-◌, min, ◌&&◌, ◌≡◌, refl, Bool, true, Option, none, some, ltb, length, Text,
  Bool-cases, arith, inl, inr,
}
use uber_coder.Sessions.Recovery.{
  reports_error, RunFailure, Recovery, Moment, Blocked, not_restored, blocked_by, FailureStatus,
  scheduled, retrying, shown, is_scheduled, save, stop_failure, not_relaunched, recovery_max_age_ms,
  note, After, nothing, then_retry, then_acknowledge, submitting,
}
use uber_coder.Sessions.Recovery.Refresh.{delay_at}
use uber_coder.Sessions.Recovery.Retry.{
  finish, is_watched, ask_retry, relaunch_later, refuse, submit, attempt, retry_failure, Outcome,
  sent, deferred, submit_failed, rejected, await_acknowledgement, give_back, stop_uncertain,
  stop_rejected, submit_ended, unacknowledged,
}
use uber_coder.Sessions.Recovery.Steps.{return_to, submit_ends}
use uber_coder.Sessions.Recovery.Replays.{
  pending, deferral, Within, SameCalls, from_same, to_same, same-Within, weaken, if-Within,
  note_error, save-SameCalls, save-pending, save-Within, schedule-Within,
}

ask_retry-Within :
    (now serial generation : ℕ) (r : Recovery) → Within 0 r (ask_retry now serial generation r)
unfolding ask_retry Within
ask_retry-Within now serial generation r = ground arith

unacknowledged-Within :
    (serial : ℕ) (f : Option RunFailure) (r : Recovery) → Within 0 r (unacknowledged serial f r)
unfolding unacknowledged
unacknowledged-Within serial none r = same-Within r
unacknowledged-Within serial (some f) r = if-Within 0 _ r _ _ (save-Within _ r) (same-Within r)

pub return_to-Within : (m : Moment) (k : After) (r : Recovery) → Within 0 r (return_to m k r)
unfolding return_to Within
return_to-Within m nothing r = same-Within r
return_to-Within m (then_retry serial generation) r = ask_retry-Within m.now serial generation r
return_to-Within m (then_acknowledge serial) r = unacknowledged-Within serial (shown r.row) r

scheduled-pending :
    (f : RunFailure) (o : Option RunFailure) → o ≡ some f → f.status ≡ scheduled → pending o ≡ 1
scheduled-pending f o e s = rw (e, s) refl

relaunch_later-Within :
    (now : ℕ) (f : RunFailure) (r : Recovery)
    → shown r.row ≡ some f
    → f.status ≡ scheduled
    → Within 0 r (relaunch_later now f r)
unfolding relaunch_later Within SameCalls
relaunch_later-Within now f r e s =
    let stop = some (stop_failure not_relaunched (record f { attempts = suc f.attempts })) in
    let next = record f {
      attempts = suc f.attempts;
      status = scheduled;
      next_retry_at = some (now + delay_at r.delays (suc f.attempts));
    } in
    ground (
      arith,
      scheduled-pending f (shown r.row) e s,
      save-SameCalls stop r,
      save-pending stop r,
      save-SameCalls (some next) r,
      save-pending (some next) r,
      schedule-Within now next (save (some next) r),
    )

refuse-Within :
    (now : ℕ) (old : Bool) (f : RunFailure) (b : Option Blocked) (r : Recovery)
    → shown r.row ≡ some f
    → f.status ≡ scheduled
    → Within 0 r (refuse now old f b r)
unfolding refuse
refuse-Within now old f none r e s = save-Within _ r
refuse-Within now old f (some (blocked_by t)) r e s = save-Within _ r
refuse-Within now old f (some not_restored) r e s =
    if-Within 0 _ r _ _ (relaunch_later-Within now f r e s) (save-Within _ r)

submit-Within :
    (now serial generation : ℕ) (f : RunFailure) (r : Recovery)
    → shown r.row ≡ some f
    → f.status ≡ scheduled
    → Within 0 r (submit now serial generation f r)
unfolding submit Within SameCalls
submit-Within now serial generation f r e s =
    let next = some (record f {
      attempts = suc f.attempts;
      status = retrying;
      next_retry_at = none;
      retry_submitted_at = some now;
    }) in
    let waiting = record r { task = submitting serial generation f.attempts } in
    ground (
      arith,
      scheduled-pending f (shown r.row) e s,
      save-SameCalls next waiting,
      save-pending next waiting,
    )

attempt-Within :
    (now serial generation : ℕ) (b : Option Blocked) (f : RunFailure) (r : Recovery)
    → shown r.row ≡ some f
    → f.status ≡ scheduled
    → Within 0 r (attempt now serial generation b f r)
unfolding attempt
attempt-Within now serial generation b f r e s =
    if-Within 0 _ r _ _
      (from_same 0 (finish r) r _ refl refl
        (refuse-Within now (ltb recovery_max_age_ms (now - f.failed_at)) f b (finish r) e s))
      (submit-Within now serial generation f r e s)

is_scheduled_iff : (s : FailureStatus) → is_scheduled s ≡ true → s ≡ scheduled
is_scheduled_iff s h = ground arith

pub retry_failure-Within :
    (now serial generation : ℕ) (b : Option Blocked) (f : Option RunFailure) (r : Recovery)
    → shown r.row ≡ f
    → Within 0 r (retry_failure now serial generation b f r)
unfolding retry_failure
retry_failure-Within now serial generation b none r e = to_same r _ refl refl
retry_failure-Within now serial generation b (some f) r e =
    elim (Bool-cases (is_watched serial generation r && is_scheduled f.status)) [
      | inl h ↦
          rw (h, retry_failure)
            (attempt-Within now serial generation b f r e (is_scheduled_iff _ (ground arith)))
      | inr h ↦ rw (h, retry_failure) (to_same r _ refl refl)
    ]

give_back-Within :
    (now attempts : ℕ) (f : Option RunFailure) (r : Recovery)
    → Within 1 r (give_back now attempts f r)
unfolding give_back Within
give_back-Within now attempts none r = omega arith
give_back-Within now attempts (some f) r =
    let next = record f {
      attempts = attempts;
      status = scheduled;
      retry_submitted_at = none;
      next_retry_at = some (now + delay_at r.delays (min attempts (length r.delays - 1)));
    } in
    ground (arith, save-Within (some next) r, schedule-Within now next (save (some next) r))

stop_rejected-Within :
    (t : Text) (f : Option RunFailure) (r : Recovery) → Within 0 r (stop_rejected t f r)
unfolding stop_rejected
stop_rejected-Within t none r = same-Within r
stop_rejected-Within t (some f) r = if-Within 0 _ r _ _ (same-Within r) (save-Within _ r)

stop_uncertain-Within :
    (f : Option RunFailure) (r : Recovery) → Within 0 r (note reports_error (stop_uncertain f r))
unfolding stop_uncertain
stop_uncertain-Within none r = note_error r r (same-Within r)
stop_uncertain-Within (some f) r =
    note_error r _ (if-Within 0 _ r _ _ (same-Within r) (save-Within _ r))

pub submit_ended-Within :
    (now serial generation attempts : ℕ) (out : Outcome) (r : Recovery)
    → Within (deferral (submit_ends out)) r (submit_ended now serial generation attempts out r)
unfolding submit_ended await_acknowledgement
submit_ended-Within now serial generation attempts sent r =
    if-Within 0 _ r (await_acknowledgement r) r (to_same r (await_acknowledgement r) refl refl)
      (same-Within r)
submit_ended-Within now serial generation attempts deferred r =
    if-Within 1 _ r _ _ (give_back-Within now attempts (shown r.row) r) (weaken r r (same-Within r))
submit_ended-Within now serial generation attempts (rejected t) r =
    stop_rejected-Within t (shown r.row) r
submit_ended-Within now serial generation attempts submit_failed r =
    stop_uncertain-Within (shown r.row) r
