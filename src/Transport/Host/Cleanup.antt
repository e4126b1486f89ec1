-- ===== src/Transport/Host/Cleanup.antt =====
-- The way to the end keeps the counters and flags of a session host.
use uber_coder.Prelude.{
  ℕ, ◌≡◌, refl, ap, Bool, true, false, not, none, some, List, [], ◌∷◌, ◌++◌, map, ◌⊎◌, inl, inr,
  arith, is_some, Text, Option-cases, Bool-cases,
}
use uber_coder.Transport.Host.State.{
  Host, Env, Effect, Outbound, Signal, ChildExit, RawExit, ExitError, Phase, ends, destroys,
  closes_server, starts_timer, finish, destroy_sockets, idle, wait_close, wait_term, wait_kill,
  over, exit,
}
use uber_coder.Transport.Host.Actions.{
  Action, ask, when, send, send_effects, send_all, signal_effects, signal_group, sweep_effects,
  sweep_group, sockets, closing, stop, schedule_stop, send_client,
}
use uber_coder.Transport.Host.Child.{
  exit_of, tell_watchers, tell_exit, report_exit, on_child_ended, on_exit, on_close, fail_child,
  end_stdin, write_to_child, terminate_child, enter_wait, last_wait_done, ended_in_time,
  wait_answer, wait_done,
}
use uber_coder.Transport.Host.Steps.{
  removals, writes, Proper, Proper-refl, Proper-trans, IsProper, skip-IsProper, >>-IsProper,
  reading-IsProper, ask-IsProper, proper_rules,
}

pub send-IsProper : (env : Env) (socket : ℕ) (m : Outbound) → IsProper (send env socket m)
unfolding send_effects
send-IsProper env socket m = ask-IsProper _ (ground arith) (ground arith)

pub send_all-IsProper :
    (env : Env) (socket : ℕ) (ms : List Outbound) → IsProper (send_all env socket ms)
unfolding send_all
send_all-IsProper env socket [] = skip-IsProper
send_all-IsProper env socket (m ∷ ms) =
    >>-IsProper _ _ (send-IsProper env socket m) (send_all-IsProper env socket ms)

pub send_client-IsProper : (env : Env) (ms : List Outbound) → IsProper (send_client env ms)
unfolding send_client
send_client-IsProper env ms = search (proper_rules, send_all-IsProper)

pub signal_group-IsProper : (env : Env) (signal : Signal) → IsProper (signal_group env signal)
unfolding signal_effects
signal_group-IsProper env signal =
    reading-IsProper _ λ h. ask-IsProper _ (ground arith) (ground arith)

sweep_group-IsProper : (env : Env) → IsProper (sweep_group env)
unfolding sweep_effects
sweep_group-IsProper env = reading-IsProper _ λ h. ask-IsProper _ (ground arith) (ground arith)

ends-counts :
    (ss : List ℕ) (es : List Effect)
    → (removals (map ends ss ++ es) ≡ removals es) × (writes (map ends ss ++ es) ≡ writes es)
ends-counts [] es = (refl, refl)
ends-counts (s ∷ ss) es = ends-counts ss es

closing-counts :
    (code : ℕ) (ss : List ℕ) → (removals (closing code ss) ≡ 0) × (writes (closing code ss) ≡ 0)
closing-counts code ss = ends-counts ss (
    closes_server (finish code)
    ∷ starts_timer 500 (destroy_sockets ss)
    ∷ starts_timer 1500 (finish code)
    ∷ [])

stopping : (h : Host) (code : ℕ) → h.stopped ≡ false → Proper h (stop code h).0 (stop code h).1
unfolding stop
stopping h code e =
    let (r, w) = closing-counts code (sockets h.connections) in
    rw e (record {
      once = omega (arith, r);
      counted = omega (arith, w);
      final = λ x p. p;
      shut = λ p. p;
      silent = λ p. w;
    })

pub stop-IsProper : (code : ℕ) → IsProper (stop code)
stop-IsProper code = record { at = λ h. at h (Bool-cases h.stopped) }
  where
    at :
        (h : Host)
        → (h.stopped ≡ true) ⊎ (h.stopped ≡ false)
        → Proper h (stop code h).0 (stop code h).1
    at h (inl e) = unfold stop in rw e (Proper-refl (record h { stopped = true }))
    at h (inr e) = stopping h code e

pub schedule_stop-IsProper : (ms : ℕ) → IsProper (schedule_stop ms)
unfolding schedule_stop
schedule_stop-IsProper ms = search (proper_rules, stop-IsProper)

pub ask_ends-IsProper : (w : ℕ) → IsProper (ask (ends w ∷ []))
ask_ends-IsProper w = ask-IsProper _ refl refl

pub ask_destroys-IsProper : (w : ℕ) → IsProper (ask (destroys w ∷ []))
ask_destroys-IsProper w = ask-IsProper _ refl refl

tell_watchers-IsProper :
    (env : Env) (e : ChildExit) (ws : List ℕ) → IsProper (tell_watchers env e ws)
unfolding tell_watchers
tell_watchers-IsProper env e [] = skip-IsProper
tell_watchers-IsProper env e (w ∷ ws) =
    >>-IsProper _ _ (>>-IsProper _ _ (send-IsProper env w (exit e)) (ask_ends-IsProper w))
      (tell_watchers-IsProper env e ws)

tell_exit-IsProper : (env : Env) (e : ChildExit) → IsProper (tell_exit env e)
unfolding tell_exit
tell_exit-IsProper env e =
    search
      (
        proper_rules, sweep_group-IsProper, send_client-IsProper, tell_watchers-IsProper,
        schedule_stop-IsProper,
      )
      depth 9

report_exit-Proper :
    (env : Env) (h : Host) (e : ChildExit)
    → h.child_exit ≡ none
    → Proper h (report_exit env e h).0 (report_exit env e h).1
unfolding report_exit
report_exit-Proper env h e n =
    Proper-trans {h1 = record h { child_exit = some e }} {es = []}
      (record {
        once = omega arith;
        counted = omega arith;
        final = λ x p. absurd (ground (arith, n, p));
        shut = λ p. p;
        silent = λ p. refl;
      })
      ((tell_exit-IsProper env e).at _)

pub on_child_ended-IsProper : (env : Env) → IsProper (on_child_ended env)
unfolding on_child_ended
on_child_ended-IsProper env = record { at = λ h. at h (Option-cases h.child_exit) }
  where
    at :
        (h : Host)
        → (h.child_exit ≡ none) ⊎ ((a : ChildExit) × (h.child_exit ≡ some a))
        → Proper h (on_child_ended env h).0 (on_child_ended env h).1
    at h (inl e) =
        rw (ap (λ o. when (not (is_some o)) (report_exit env (exit_of h)) h) e)
          (report_exit-Proper env h (exit_of h) e)
    at h (inr (x, e)) =
        rw (ap (λ o. when (not (is_some o)) (report_exit env (exit_of h)) h) e) (Proper-refl h)

pub on_exit-IsProper : (raw : RawExit) → IsProper (on_exit raw)
unfolding on_exit
on_exit-IsProper raw = search proper_rules

pub on_close-IsProper : (env : Env) (raw : RawExit) → IsProper (on_close env raw)
unfolding on_close
on_close-IsProper env raw = search (proper_rules, on_child_ended-IsProper)

pub fail_child-IsProper : (env : Env) (error : ExitError) → IsProper (fail_child env error)
unfolding fail_child
fail_child-IsProper env error =
    search (proper_rules, on_child_ended-IsProper, signal_group-IsProper) depth 9

end_stdin-IsProper : IsProper end_stdin
unfolding end_stdin
end_stdin-IsProper = record { at = λ h. ground arith }

pub write_to_child-IsProper : (env : Env) (line : Text) → IsProper (write_to_child env line)
unfolding write_to_child
write_to_child-IsProper env line = record { at = λ h. ground arith }

pub terminate_child-IsProper : (env : Env) (ms : ℕ) → IsProper (terminate_child env ms)
unfolding terminate_child
terminate_child-IsProper env ms =
    search (proper_rules, end_stdin-IsProper, sweep_group-IsProper, schedule_stop-IsProper) depth 9

ended_in_time-IsProper : (env : Env) → IsProper (ended_in_time env)
unfolding ended_in_time
ended_in_time-IsProper env = search (proper_rules, sweep_group-IsProper)

last_wait_done-IsProper : (env : Env) → IsProper (last_wait_done env)
unfolding last_wait_done
last_wait_done-IsProper env = search (proper_rules, on_child_ended-IsProper)

enter_wait-IsProper :
    (env : Env) (p : Phase) (m : Action) → IsProper m → IsProper (enter_wait env p m)
unfolding enter_wait
enter_wait-IsProper env p m q = search proper_rules

wait_answer-IsProper : (env : Env) (b : Bool) (p : Phase) → IsProper (wait_answer env b p)
unfolding wait_answer
wait_answer-IsProper env b idle = skip-IsProper
wait_answer-IsProper env b over = skip-IsProper
wait_answer-IsProper env b (wait_close ms) =
    search (proper_rules, ended_in_time-IsProper, signal_group-IsProper, enter_wait-IsProper)
wait_answer-IsProper env b wait_term = search (
  proper_rules, ended_in_time-IsProper, signal_group-IsProper, enter_wait-IsProper,
  last_wait_done-IsProper,
)
wait_answer-IsProper env b wait_kill = last_wait_done-IsProper env

pub wait_done-IsProper : (env : Env) (b : Bool) → IsProper (wait_done env b)
unfolding wait_done
wait_done-IsProper env b = search (proper_rules, wait_answer-IsProper)
