-- ===== src/Transport/Host/Stops.antt =====
-- Every event keeps `Ends`, and three waits of a termination bring the host to its end.
use uber_coder.Prelude.{
  ℕ, ◌+◌, ◌-◌, ◌≤◌, ◌≡◌, refl, Bool, true, false, none, some, List, [], ◌∷◌, arith, is_some, ◌⊎◌,
  inl, inr, Bool-cases,
}
use uber_coder.Transport.Host.State.{Host, Env, Phase, idle, wait_close, wait_term, wait_kill, over}
use uber_coder.Transport.Host.Actions.{stop, schedule_stop}
use uber_coder.Transport.Host.Child.{
  is_idle, exit_of, on_close, terminate_child, end_stdin, enter_wait, last_wait_done, ended_in_time,
  wait_answer, wait_done,
}
use uber_coder.Transport.Host.Events.{
  Event, connects, identify_timeout, closes, message, child_line, child_stderr, line_overflow,
  child_exits, flush_over, child_closes, wait_over, linger_over, term_signal, crashes,
  on_connection, on_identify_timeout, on_line, on_wait_over, on_linger_over, abort, step, run,
  Options, started,
}
use uber_coder.Transport.Host.Quiet.{on_child_line-IsQuiet, append_stderr-IsQuiet, on_exit-IsQuiet}
use uber_coder.Transport.Host.Ending.{
  rank, Ends, Advance, IsAdvance, advance_rules, on_child_ended-IsAdvance, on_message-IsAdvance,
  on_socket_close-IsAdvance, fail_child-IsAdvance, terminate_child-IsAdvance, stop-IsAdvance,
  on_child_ended-cases, settle,
}

-- A wait of a termination that is under way is one wait less.
record Shorter (h h' : Host) : Type 0 where
  ends : Ends h'
  going : is_idle h'.phase ≡ false
  less : rank h'.phase ≤ rank h.phase - 1

ended_in_time-Shorter :
    (env : Env) (h : Host)
    → Ends h
    → is_idle h.phase ≡ false
    → is_some h.child_exit ≡ true
    → Shorter h (ended_in_time env h).0
unfolding ended_in_time
ended_in_time-Shorter env h e g x = record {
  ends = record {
    ended = e.ended;
    terminated = λ _. e.terminated g;
    finished = λ _. x;
    spawned = e.spawned;
  };
  going = refl;
  less = omega arith;
}

last_wait_done-Shorter :
    (env : Env) (h : Host) → Ends h → is_idle h.phase ≡ false → Shorter h (last_wait_done env h).0
unfolding last_wait_done schedule_stop stop
last_wait_done-Shorter env h e g = elim (on_child_ended-cases env (record h { phase = over })) [
  | inl (s, x) ↦ rw s (record {
    ends = record {
      ended = e.ended;
      terminated = λ _. e.terminated g;
      finished = λ _. x;
      spawned = e.spawned;
    };
    going = refl;
    less = omega arith;
  })
  | inr (n, s) ↦ rw s (settled n)
]
  where
    settled :
        h.child_exit ≡ none
        → Shorter h (
            settle
              (record h { phase = over; child_exit = some (exit_of (record h { phase = over })) }))
    settled n = record {
      ends = record {
        ended = ground arith;
        terminated = ground arith;
        finished = ground arith;
        spawned = ground (arith, e.spawned);
      };
      going = ground arith;
      less = ground arith;
    }

-- A wait answers `true` exactly when the exit has been recorded.
wait_answer-Shorter :
    (env : Env) (h : Host) (p : Phase) (b : Bool)
    → Ends h
    → is_idle h.phase ≡ false
    → h.phase ≡ p
    → is_some h.child_exit ≡ b
    → Shorter h (wait_answer env b p h).0
unfolding wait_answer enter_wait
wait_answer-Shorter env h idle b e g q x = absurd (ground (arith, q, g))
wait_answer-Shorter env h over b e g q x = record { ends = e; going = g; less = ground (arith, q) }
wait_answer-Shorter env h (wait_close ms) true e g q x = ended_in_time-Shorter env h e g x
wait_answer-Shorter env h (wait_close ms) false e g q x = rw x (record {
  ends = record {
    ended = e.ended;
    terminated = λ _. e.terminated g;
    finished = λ f. cc;
    spawned = e.spawned;
  };
  going = refl;
  less = ground (arith, q);
})
wait_answer-Shorter env h wait_term true e g q x = ended_in_time-Shorter env h e g x
wait_answer-Shorter env h wait_term false e g q x = rw x (record {
  ends = record {
    ended = e.ended;
    terminated = λ _. e.terminated g;
    finished = λ f. cc;
    spawned = e.spawned;
  };
  going = refl;
  less = ground (arith, q);
})
wait_answer-Shorter env h wait_kill b e g q x = last_wait_done-Shorter env h e g

on_wait_over-Shorter :
    (env : Env) (h : Host) → Ends h → is_idle h.phase ≡ false → Shorter h (on_wait_over env h).0
unfolding on_wait_over wait_done
on_wait_over-Shorter env h e g =
    wait_answer-Shorter env h h.phase (is_some h.child_exit) e g refl refl

wait_answer-idle :
    (env : Env) (h : Host) (p : Phase) (b : Bool) → is_idle p ≡ true → (wait_answer env b p h).0 ≡ h
unfolding wait_answer
wait_answer-idle env h idle b i = refl
wait_answer-idle env h over b i = refl
wait_answer-idle env h (wait_close ms) b i = cc
wait_answer-idle env h wait_term b i = cc
wait_answer-idle env h wait_kill b i = cc

-- A wait with no termination under way does nothing.
on_wait_over-Advance : (env : Env) (h : Host) → Ends h → Advance h (on_wait_over env h).0
unfolding on_wait_over wait_done
on_wait_over-Advance env h e = elim (Bool-cases (is_idle h.phase)) [
  | inl i ↦
      rw (wait_answer-idle env h h.phase (is_some h.child_exit) i)
        (record { ends = e; going = λ g. g; less = λ g. omega arith })
  | inr g ↦
      let s = on_wait_over-Shorter env h e g in
      record { ends = s.ends; going = λ _. s.going; less = λ _. omega (arith, s.less) }
]

step-Advance : (env : Env) (v : Event) → IsAdvance (step env v)
unfolding step
step-Advance env (connects s) = unfold on_connection in search advance_rules
step-Advance env (identify_timeout s) = unfold on_identify_timeout in search advance_rules
step-Advance env (closes s) = on_socket_close-IsAdvance s
step-Advance env (message s m) = unfold on_line in search (advance_rules, on_message-IsAdvance)
step-Advance env (child_line l) = search (advance_rules, on_child_line-IsQuiet)
step-Advance env (child_stderr c) = search (advance_rules, append_stderr-IsQuiet)
step-Advance env (line_overflow x) = fail_child-IsAdvance env x
step-Advance env (child_exits raw) = search (advance_rules, on_exit-IsQuiet)
step-Advance env flush_over = on_child_ended-IsAdvance env
step-Advance env (child_closes raw) =
    unfold on_close in search (advance_rules, on_child_ended-IsAdvance)
step-Advance env wait_over = record { at = on_wait_over-Advance env }
step-Advance env linger_over = unfold on_linger_over in search (advance_rules, stop-IsAdvance)
step-Advance env term_signal = search (advance_rules, terminate_child-IsAdvance)
step-Advance env crashes = unfold abort in search (advance_rules, stop-IsAdvance)

is_wait : Event → ℕ
is_wait wait_over = 1
is_wait _ = 0

-- The waits that end in a run.
unfoldable pub waits : List (Env × Event) → ℕ
unfolding is_wait
waits [] = 0
waits ((env, v) ∷ es) = is_wait v + waits es

run-Ends : (h : Host) (es : List (Env × Event)) → Ends h → Ends (run es h).0
unfolding run
run-Ends h [] e = e
run-Ends h ((env, v) ∷ es) e = run-Ends (step env v h).0 es ((step-Advance env v).at h e).ends

-- The number of waits left after a step.
step-rank :
    (env : Env) (v : Event) (h : Host)
    → Ends h
    → is_idle h.phase ≡ false
    → (is_idle (step env v h).0.phase ≡ false)
      × (rank (step env v h).0.phase ≤ rank h.phase - is_wait v)
unfolding step is_wait
step-rank env wait_over h e g = let s = on_wait_over-Shorter env h e g in (s.going, s.less)
step-rank env v h e g = let a = (step-Advance env v).at h e in (a.going g, omega (arith, a.less g))

-- Once a termination is under way, a run in which as many waits end as it has left, whatever else
-- happens between, ends with the host stopped and the exit of its child recorded.
run-waits :
    (h : Host) (es : List (Env × Event))
    → Ends h
    → is_idle h.phase ≡ false
    → rank h.phase ≤ waits es
    → ((run es h).0.stopped ≡ true) × (is_some (run es h).0.child_exit ≡ true)
unfolding run waits
run-waits h [] e g r = let f = e.finished (ground (arith, r, g)) in (e.terminated g f, f)
run-waits h ((env, v) ∷ es) e g r =
    let (g', l) = step-rank env v h e g in
    run-waits (step env v h).0 es ((step-Advance env v).at h e).ends g' (omega (arith, r, l))

term_signal-rank :
    (env : Env) (h : Host)
    → (is_idle (step env term_signal h).0.phase ≡ false)
      × (rank (step env term_signal h).0.phase ≤ 3)
unfolding step terminate_child end_stdin schedule_stop stop
term_signal-rank env h = ground arith

started-Ends : (o : Options) (pid : ℕ) → Ends (started o pid)
unfolding started
started-Ends o pid = record {
  ended = λ x. cc;
  terminated = λ g x. cc;
  finished = λ f. cc;
  spawned = refl;
}

-- In any run from the start in which the child ends, the host has stopped or its stop timer runs.
pub run-ended :
    (o : Options) (pid : ℕ) (es : List (Env × Event))
    → is_some (run es (started o pid)).0.child_exit ≡ true
    → ((run es (started o pid)).0.stopped ≡ true)
      ⊎ (is_some (run es (started o pid)).0.linger ≡ true)
run-ended o pid es x = (run-Ends (started o pid) es (started-Ends o pid)).ended x

-- SIGTERM to the host at any time, followed by any events among which three of the waits end, stops
-- the host with its child's exit recorded.
pub run-term_signal :
    (o : Options) (pid : ℕ) (before after : List (Env × Event)) (env : Env)
    → 3 ≤ waits after
    → let h = (run after (step env term_signal (run before (started o pid)).0).0).0 in
      (h.stopped ≡ true) × (is_some h.child_exit ≡ true)
run-term_signal o pid before after env w =
    let e = run-Ends (started o pid) before (started-Ends o pid) in
    let e' = ((step-Advance env term_signal).at _ e).ends in
    let (g, r) = term_signal-rank env (run before (started o pid)).0 in
    run-waits (step env term_signal (run before (started o pid)).0).0 after e' g
      (omega (arith, r, w))
