-- ===== src/Sessions/Recovery/Stops.antt =====
-- What a Stop or new input leaves of a session's recovery, and what is kept before a retry is sent.
use uber_coder.Prelude.{
  ℕ, ◌+◌, ◌-◌, ◌≤◌, ◌≡◌, refl, ◌⊎◌, inl, inr, Bool, true, false, Option, none, some, List, ◌∷◌, ltb,
  if◌then◌else◌, Option-cases, arith,
}
use uber_coder.Sessions.Recovery.{
  publishes, submits, RunFailure, Recovery, Moment, Blocked, retrying, shown, save, save_row,
  schedule_at, schedule, clear_timer, budget, recovery_max_age_ms,
}
use uber_coder.Sessions.Recovery.Retry.{
  finish, relaunch_later, refuse, submit, attempt, retry_failure, retry_checked,
}
use uber_coder.Sessions.Recovery.Calls.{cancel, cancel_failure}
use uber_coder.Sessions.Recovery.Steps.{Event, run}
use uber_coder.Sessions.Recovery.Replays.Runs.{run-Within}
use uber_coder.Sessions.Recovery.Replays.{submissions, failed_reports, pending, deferrals, Within}

cancel-pending : (now : ℕ) (r : Recovery) → pending (shown (cancel now r).row) ≡ 0
unfolding cancel cancel_failure save save_row budget
cancel-pending now r = ground arith

cancel_counts :
    (now : ℕ) (r : Recovery)
    → (submissions (cancel now r).calls ≡ submissions r.calls)
      × (failed_reports (cancel now r).calls ≡ failed_reports r.calls)
unfolding cancel cancel_failure save save_row budget
cancel_counts now r = ground arith

-- After `cancel`, whatever was under way and whatever follows, a retry is submitted at most once for
-- each run that is reported as failed from then on and for each submission that was certainly not sent.
pub cancel-submissions :
    (now : ℕ) (es : List (Moment × Event)) (r : Recovery)
    → submissions (run es (cancel now r)).calls + failed_reports r.calls
      ≤ submissions r.calls + failed_reports (run es (cancel now r)).calls + deferrals es
unfolding Within
cancel-submissions now es r =
    omega (arith, run-Within es (cancel now r), cancel-pending now r, cancel_counts now r)

-- Nothing is submitted, or what is kept of the failure, in the row and in the budget, is a retry under
-- way with the number of the submission.
unfoldable pub Kept : Recovery → Recovery → Type 0
Kept r s =
    (submissions s.calls ≡ submissions r.calls)
    ⊎ ((f : RunFailure) × (s.calls ≡ submits f.attempts ∷ publishes ∷ r.calls)
        × (shown s.row ≡ some f)
        × (s.budget_row ≡ some f)
        × (f.status ≡ retrying))

refuse-submissions :
    (now : ℕ) (old : Bool) (f : RunFailure) (b : Option Blocked) (r : Recovery)
    → submissions (refuse now old f b r).calls ≡ submissions r.calls
unfolding refuse relaunch_later save save_row schedule schedule_at clear_timer
refuse-submissions now old f b r = ground arith

submit-Kept :
    (now serial generation : ℕ) (f : RunFailure) (r : Recovery)
    → shown r.row ≡ some f
    → Kept r (submit now serial generation f r)
unfolding submit save save_row Kept
submit-Kept now serial generation f r e = elim (Option-cases r.row) [
  | inl n ↦ inl (ground arith)
  | inr (s, h) ↦ rw (h, submit, save) (inr (_, refl, refl, refl, refl))
]

same-Kept : (r s : Recovery) → submissions s.calls ≡ submissions r.calls → Kept r s
unfolding Kept
same-Kept r s h = inl h

if-Kept : (b : Bool) (r s t : Recovery) → Kept r s → Kept r t → Kept r (if b then s else t)
if-Kept true r s t hs ht = hs
if-Kept false r s t hs ht = ht

attempt-Kept :
    (now serial generation : ℕ) (b : Option Blocked) (f : RunFailure) (r : Recovery)
    → shown r.row ≡ some f
    → Kept r (attempt now serial generation b f r)
unfolding attempt
attempt-Kept now serial generation b f r e =
    if-Kept _ r (refuse now (ltb recovery_max_age_ms (now - f.failed_at)) f b (finish r)) _
      (same-Kept r _
        (refuse-submissions now (ltb recovery_max_age_ms (now - f.failed_at)) f b (finish r)))
      (submit-Kept now serial generation f r e)

retry_failure-Kept :
    (now serial generation : ℕ) (b : Option Blocked) (f : Option RunFailure) (r : Recovery)
    → shown r.row ≡ f
    → Kept r (retry_failure now serial generation b f r)
unfolding retry_failure
retry_failure-Kept now serial generation b none r e = same-Kept r (finish r) refl
retry_failure-Kept now serial generation b (some f) r e =
    if-Kept _ r _ (finish r) (attempt-Kept now serial generation b f r e)
      (same-Kept r (finish r) refl)

-- When `canRetry` has answered, either nothing is submitted, or both the row and the budget already say
-- that a retry is under way, with the number of the attempt that is submitted.
pub retry_checked-Kept :
    (now serial generation : ℕ) (b : Option Blocked) (r : Recovery)
    → Kept r (retry_checked now serial generation b r)
unfolding retry_checked
retry_checked-Kept now serial generation b r =
    retry_failure-Kept now serial generation b (shown r.row) r refl
