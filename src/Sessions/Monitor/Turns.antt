-- ===== src/Sessions/Monitor/Turns.antt =====
-- A run that is observed from its start to its end.
use uber_coder.Prelude.{
  same_text_refl, ℕ, ◌≡◌, refl, ap, ◌∙◌, true, Option, none, some, List, [], ◌∷◌, Text, same_text,
  ltb, arith, is_some, ◌⊎◌, inl, inr, Bool-cases, ◌≢◌, ◌<◌, ◌≤◌, same_text_eq, ltb→lt, subst,
}
use uber_coder.Sessions.Monitor.{
  RunState, Monitor, TurnEnd, ProviderFailure, running, status_of_end, end_error, turn_started,
  item_completed, turn_terminal, read, MonitorEvent, starts, progresses, observe_event, observe_all,
  reset,
}

-- The progress reports of a turn, and the last of them.
abbrev pub progress_events : List ℕ → List MonitorEvent
progress_events [] = []
progress_events (t ∷ ts) = progresses t ∷ progress_events ts

abbrev pub last_progress : Option ℕ → List ℕ → Option ℕ
last_progress p [] = p
last_progress p (t ∷ ts) = last_progress (some t) ts

abbrev pub running_run : Text → ℕ → Option ℕ → RunState
running_run turn_id at p = record {
  turn_id = turn_id;
  timestamp = at;
  started_at = at;
  progress_at = p;
  status = running;
  error = none;
}

progress-running :
    (unknown turn_id : Text) (at : ℕ) (p : Option ℕ) (ts : List ℕ) (m : Monitor)
    → m.protocol ≡ some (running_run turn_id at p)
    → (observe_all unknown (progress_events ts) m).protocol
      ≡ some (running_run turn_id at (last_progress p ts))
unfolding observe_all observe_event item_completed
progress-running unknown turn_id at p [] m e = e
progress-running unknown turn_id at p (t ∷ ts) m e =
    progress-running unknown turn_id at (some t) ts (item_completed t m)
      (ap (λ o. (item_completed t (record m { protocol = o })).protocol) e)

-- A turn that was seen to start, to report progress any number of times and to end is known with its
-- start, its last progress and how it ended.
pub observed_turn-ends :
    (unknown turn_id : Text) (at until : ℕ) (ts : List ℕ) (end : TurnEnd)
    (failure : Option ProviderFailure) (m : Monitor)
    → (turn_terminal unknown turn_id end failure until
        (observe_all unknown (starts turn_id at ∷ progress_events ts) m)).protocol
      ≡ some (record {
        turn_id = turn_id;
        timestamp = until;
        started_at = at;
        progress_at = last_progress none ts;
        status = status_of_end end;
        error = end_error unknown end failure;
      })
unfolding turn_terminal observe_all observe_event turn_started
observed_turn-ends unknown turn_id at until ts end failure m =
    let p = progress-running unknown turn_id at none ts (turn_started turn_id at m) refl in
    ap (λ o. (turn_terminal unknown turn_id end failure until (record m { protocol = o })).protocol)
      p
    ∙ same_start (same_text_refl turn_id)
  where
    same_start :
        same_text turn_id turn_id ≡ true
        → (turn_terminal unknown turn_id end failure until (record m {
          protocol = some (running_run turn_id at (last_progress none ts));
        })).protocol
          ≡ some (record {
            turn_id = turn_id;
            timestamp = until;
            started_at = at;
            progress_at = last_progress none ts;
            status = status_of_end end;
            error = end_error unknown end failure;
          })
    same_start q = rw (q, turn_terminal) refl

progress-transcript :
    (unknown : Text) (ts : List ℕ) (m : Monitor)
    → (observe_all unknown (progress_events ts) m).transcript ≡ m.transcript
unfolding observe_all observe_event item_completed
progress-transcript unknown [] m = refl
progress-transcript unknown (t ∷ ts) m = progress-transcript unknown ts (item_completed t m)

-- The transcript's state `h` is reported if it is of another turn and later than the transport's, and
-- only then; else the transport's is.
abbrev pub Reports : RunState → RunState → Option RunState → Type 0
Reports h live o =
    ((o ≡ some h) × (h.turn_id ≢ live.turn_id) × (live.timestamp < h.timestamp))
    ⊎ ((o ≡ some live) × ((h.turn_id ≡ live.turn_id) ⊎ (h.timestamp ≤ live.timestamp)))

read-Reports :
    (h live : RunState) (m : Monitor)
    → m.protocol ≡ some live
    → is_some m.transcript ≡ true
    → Reports h live (read (some h) m)
unfolding read
read-Reports h live m e t = elim (Bool-cases (same_text h.turn_id live.turn_id)) [
  | inl s ↦ inr (ground (arith, e, t, s), inl (same_text_eq h.turn_id live.turn_id s))
  | inr s ↦ elim (Bool-cases (ltb live.timestamp h.timestamp)) [
    | inl l ↦ inl (
      ground (arith, e, t, s, l),
      λ q. absurd (ground (arith, s, same_refl q)),
      ltb→lt live.timestamp h.timestamp l,
    )
    | inr l ↦ inr (ground (arith, e, t, s, l), inr (ground (arith, l)))
  ]
]
  where
    same_refl : h.turn_id ≡ live.turn_id → same_text h.turn_id live.turn_id ≡ true
    same_refl q = subst (λ x. same_text h.turn_id x ≡ true) q (same_text_refl h.turn_id)

read-none : (live : RunState) (m : Monitor) → m.protocol ≡ some live → read none m ≡ some live
unfolding read
read-none live m e = ground (arith, e)

-- Let a turn be seen to start and to report progress, and the transcript say `h` of a run. While the turn
-- runs, `h` is reported if it is of another turn and later than the start, and else the running turn with
-- its last progress; without `h` the running turn is. Once the turn was seen to end, `h` is reported if
-- it is of another turn and later than the end, and else how the turn ended. Behind a reset `h` is.
pub read_observed :
    (unknown turn_id : Text) (at until : ℕ) (ts : List ℕ) (end : TurnEnd)
    (failure : Option ProviderFailure) (h : RunState) (m : Monitor)
    → is_some m.transcript ≡ true
    → let seen = observe_all unknown (starts turn_id at ∷ progress_events ts) m in
      let over = turn_terminal unknown turn_id end failure until seen in
      let live = running_run turn_id at (last_progress none ts) in
      Reports h live (read (some h) seen)
      × (read none seen ≡ some live)
      × Reports h
          (record {
            turn_id = turn_id;
            timestamp = until;
            started_at = at;
            progress_at = last_progress none ts;
            status = status_of_end end;
            error = end_error unknown end failure;
          })
          (read (some h) over)
      × (read (some h) (reset over) ≡ some h)
unfolding observe_all observe_event turn_started turn_terminal read reset
read_observed unknown turn_id at until ts end failure h m t =
    let p = progress-running unknown turn_id at none ts (turn_started turn_id at m) refl in
    let q = progress-transcript unknown ts (turn_started turn_id at m) in
    let seen = observe_all unknown (starts turn_id at ∷ progress_events ts) m in
    let over = turn_terminal unknown turn_id end failure until seen in
    let kept : is_some seen.transcript ≡ true = ap is_some q ∙ t in
    (
      read-Reports h (running_run turn_id at (last_progress none ts)) seen p kept,
      read-none (running_run turn_id at (last_progress none ts)) seen p,
      read-Reports h _ over (observed_turn-ends unknown turn_id at until ts end failure m) kept,
      rw kept refl,
    )
