-- ===== src/Sessions/Recovery/Replays/Seen.antt =====
-- What a run that the monitor tells adds to the retries.
use uber_coder.Prelude.{
  ℕ, ◌+◌, ◌==◌, ◌≡◌, Bool, true, false, Option, none, some, List, ◌∷◌, not, Bool-cases, same_text,
  arith, inl, inr, is_some, if◌then◌else◌,
}
use uber_coder.Sessions.Recovery.{
  Call, reports_run, reports_children, StoppedReason, RunStatus, running, completed, cancelled,
  failed, RunFailure, SessionRow, Recovery, Moment, ProviderRunState, Observation, FailureStatus,
  scheduled, retrying, stopped, save, clear_timer, note, budget,
}
use uber_coder.Sessions.Recovery.Refresh.{acknowledge, resumed, not_failed, same_key, run_key}
use uber_coder.Sessions.Recovery.Refresh.Failures.{
  keep_failure, new_failure, known_failure, did_fail, settle_run, observe, see_run, failure_of,
}
use uber_coder.Sessions.Recovery.Steps.{refresh_read}
use uber_coder.Sessions.Recovery.Replays.{
  failed_reports, Within, same-Within, weaken, if-Within, save-Within, save-none-Within,
  schedule-Within,
}

keep_failure-Within :
    (now : ℕ) (allowed : Bool) (delays : List ℕ) (state : ProviderRunState) (attempts : ℕ)
    (why : Option StoppedReason) (r : Recovery)
    → Within 1 r (keep_failure now allowed (failure_of now delays state attempts allowed why) r)
unfolding keep_failure Within failure_of
keep_failure-Within now true delays state attempts why r =
    let f = failure_of now delays state attempts true why in
    ground (arith, schedule-Within now f (save (some f) r), save-Within (some f) r)
keep_failure-Within now false delays state attempts why r =
    ground (arith, save-Within (some (failure_of now delays state attempts false why)) r)

new_failure-Within :
    (m : Moment) (o : Observation) (state : ProviderRunState) (prior : Option RunFailure)
    (r : Recovery)
    → Within 1 r (new_failure m o state prior r)
unfolding new_failure
new_failure-Within m o state prior r = keep_failure-Within _ _ _ _ _ _ _

known_failure-Within :
    (now : ℕ) (initial : Bool) (prior : RunFailure) (s : FailureStatus) (r : Recovery)
    → Within 0 r (known_failure now initial prior s r)
unfolding known_failure
known_failure-Within now initial prior scheduled r = schedule-Within now prior r
known_failure-Within now true prior retrying r = save-Within _ r
known_failure-Within now false prior retrying r = same-Within r
known_failure-Within now initial prior stopped r = same-Within r

did_fail-Within :
    (m : Moment) (o : Observation) (state : ProviderRunState) (initial : Bool)
    (prior : Option RunFailure) (r : Recovery)
    → Within 1 r (did_fail m o state initial prior r)
unfolding did_fail
did_fail-Within m o state initial none r = new_failure-Within m o state none r
did_fail-Within m o state initial (some f) r =
    elim (Bool-cases (same_text f.turn_id state.turn_id)) [
      | inl e ↦ rw (e, did_fail) (weaken _ _ (known_failure-Within m.now initial f f.status r))
      | inr e ↦ rw (e, did_fail) (new_failure-Within m o state (some f) r)
    ]

acknowledge-Within :
    (f : RunFailure) (row : Option SessionRow) (r : Recovery) → Within 0 r (acknowledge f row r)
unfolding acknowledge Within
acknowledge-Within f row r = ground arith

not_failed-Within :
    (s : SessionRow) (state : ProviderRunState) (prior : Option RunFailure) (r : Recovery)
    → Within 0 r (not_failed s state prior r)
unfolding not_failed Within resumed
not_failed-Within s state none r = same-Within r
not_failed-Within s state (some f) r =
    ground (arith, save-none-Within r, acknowledge-Within f r.row r)

-- The settled run's credit: one for a failed one.
abbrev credit : RunStatus → ℕ
credit failed = 1
credit _ = 0

settle_run-Within :
    (m : Moment) (o : Observation) (state : ProviderRunState) (initial : Bool)
    (row : Option SessionRow) (r : Recovery)
    → Within (credit state.status) r (settle_run m o state initial row r)
unfolding settle_run Within clear_timer
settle_run-Within m o state initial none r = omega arith
settle_run-Within m o state initial (some s) r =
    let c = clear_timer r in
    ground (
      arith,
      did_fail-Within m o state initial (budget r) c,
      not_failed-Within s state (budget r) c,
    )

failed_reports-report :
    (s : RunStatus) (cs : List Call)
    → failed_reports (reports_run s ∷ cs) ≡ credit s + failed_reports cs
failed_reports-report running cs = omega arith
failed_reports-report completed cs = omega arith
failed_reports-report cancelled cs = omega arith
failed_reports-report failed cs = omega arith

-- A run schedules at most one submission, and only as it is reported as failed.
observe-Within :
    (m : Moment) (o : Observation) (state : ProviderRunState) (r : Recovery)
    → Within 0 r (observe m o state r)
unfolding observe Within
observe-Within m o state r = ground (
  arith,
  failed_reports-report state.status r.calls,
  settle_run-Within m o state (not (is_some o.seen)) r.row (
      note (reports_run state.status) (record r {
        observation = some (record o {
          seen = some (run_key state);
          last_turn_id = some state.turn_id;
          last_status = some state.status;
          run = some state;
        });
      })),
)

see_run-Within :
    (m : Moment) (o : Observation) (state : Option ProviderRunState) (r : Recovery)
    → Within 0 r (see_run m o state r)
unfolding see_run
see_run-Within m o none r = same-Within r
see_run-Within m o (some state) r = elim (Bool-cases (same_key (run_key state) o.seen)) [
  | inl e ↦ rw (e, see_run) (same-Within r)
  | inr e ↦ rw (e, see_run) (observe-Within m o state r)
]

see_children-Within :
    (m : Moment) (o : Observation) (state : Option ProviderRunState) (children : Bool)
    (r : Recovery)
    → Within 0 r (see_run m o state (if children then note reports_children r else r))
unfolding Within
see_children-Within m o state true r = see_run-Within m o state (note reports_children r)
see_children-Within m o state false r = see_run-Within m o state r

pub refresh_read-Within :
    (m : Moment) (serial generation : ℕ) (native : Option ProviderRunState) (children : Bool)
    (o : Option Observation) (r : Recovery)
    → Within 0 r (refresh_read m serial generation native children o r)
unfolding refresh_read Within
refresh_read-Within m serial generation native children none r = omega arith
refresh_read-Within m serial generation native children (some o) r =
    if-Within 0 (o.serial == serial) r _ r
      (if-Within 0 (o.generation == generation) r _ _ (see_children-Within m _ _ children _)
        (same-Within r))
      (same-Within r)
