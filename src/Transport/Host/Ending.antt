-- ===== src/Transport/Host/Ending.antt =====
-- A host whose child has ended stops, and a termination ends in three waits at most.
use uber_coder.Prelude.{
  ℕ, ◌≤◌, ◌≡◌, ap, ◌∙◌, Bool, true, false, Option, none, some, [], ◌∷◌, arith, is_some, ◌⊎◌, inl,
  inr, not, Option-cases, if◌then◌else◌,
}
use uber_coder.Transport.Host.State
use uber_coder.Transport.Host.State.{
  Host, Env, Effect, ChildExit, ExitError, RawExit, Phase, Inbound, idle, wait_close, wait_term,
  wait_kill, over, Connection,
}
use uber_coder.Transport.Host.Actions.{
  Action, ◌>>◌, reading, when, with_some, stop, schedule_stop, send_client,
}
use uber_coder.Transport.Host.Child.{
  is_idle, exit_of, tell_exit, report_exit, on_child_ended, fail_child, terminate_child, end_stdin,
}
use uber_coder.Transport.Host.Clients.{on_message}
use uber_coder.Transport.Host.Events.{on_socket_close}
use uber_coder.Transport.Host.Quiet.{
  Quiet, Quiet-refl, Quiet-trans, IsQuiet, >>-IsQuiet, quiet_rules, send_client-state,
  tell_watchers-state, on_child_line-IsQuiet, append_stderr-IsQuiet, on_exit-IsQuiet,
  end_stdin-IsQuiet, attach-IsQuiet, identify-IsQuiet, accept_write-IsQuiet, watch_exit-IsQuiet,
}

-- Waits that the termination has left.
abbrev pub rank : Phase → ℕ
rank idle = 4
rank (wait_close ms) = 3
rank wait_term = 2
rank wait_kill = 1
rank over = 0

-- When the child has ended the host has stopped or its stop timer runs; it has stopped at once if a
-- termination was under way; and a termination is over only when the child has ended.
pub record Ends (h : Host) : Type 0 where
  pub ended : is_some h.child_exit ≡ true → (h.stopped ≡ true) ⊎ (is_some h.linger ≡ true)
  pub terminated : is_idle h.phase ≡ false → is_some h.child_exit ≡ true → h.stopped ≡ true
  pub finished : h.phase ≡ over → is_some h.child_exit ≡ true
  pub spawned : h.has_child ≡ true

pub record Advance (h h' : Host) : Type 0 where
  pub ends : Ends h'
  pub going : is_idle h.phase ≡ false → is_idle h'.phase ≡ false
  pub less : is_idle h.phase ≡ false → rank h'.phase ≤ rank h.phase

Advance-Quiet : {h h' : Host} → Quiet h h' → Ends h → Advance h h'
Advance-Quiet q e = record {
  ends = record {
    ended = ground (arith, q.child_exit, q.stopped, q.linger, e.ended);
    terminated = ground (arith, q.child_exit, q.phase, q.stopped, e.terminated);
    finished = ground (arith, q.child_exit, q.phase, e.finished);
    spawned = q.has_child ∙ e.spawned;
  };
  going = ground (arith, q.phase);
  less = ground (arith, q.phase);
}

pub stop-Advance : (code : ℕ) (h : Host) → Ends h → Advance h (stop code h).0
unfolding stop
stop-Advance code h e = record {
  ends = record {
    ended = ground (arith, e.ended);
    terminated = ground (arith, e.terminated);
    finished = ground (arith, e.finished);
    spawned = ground (arith, e.spawned);
  };
  going = ground arith;
  less = ground arith;
}

pub schedule_stop-Advance : (ms : ℕ) (h : Host) → Ends h → Advance h (schedule_stop ms h).0
unfolding schedule_stop stop
schedule_stop-Advance ms h e = record {
  ends = record {
    ended = ground (arith, e.ended);
    terminated = ground (arith, e.terminated);
    finished = ground (arith, e.finished);
    spawned = ground (arith, e.spawned);
  };
  going = ground arith;
  less = ground arith;
}

-- The end of `onChildEnded`: what it schedules, behind its messages.
abbrev pub settle : Host → Host
settle h =
    (schedule_stop (if is_idle h.phase then h.linger_ms else 0) (record h { exit_watchers = [] })).0

tell_exit-state : (env : Env) (e : ChildExit) (h : Host) → (tell_exit env e h).0 ≡ settle h
unfolding tell_exit
tell_exit-state env e h = ap settle (
    tell_watchers-state env e (send_client env (State.exit e ∷ []) h).0.exit_watchers
      (send_client env (State.exit e ∷ []) h).0
    ∙ send_client-state env (State.exit e ∷ []) h)

pub settle-Advance :
    (h : Host) (x : ChildExit)
    → Ends h
    → h.child_exit ≡ none
    → Advance h (settle (record h { child_exit = some x }))
unfolding schedule_stop stop
settle-Advance h x e n = record {
  ends = record {
    ended = ground arith;
    terminated = ground arith;
    finished = ground arith;
    spawned = ground (arith, e.spawned);
  };
  going = ground arith;
  less = ground arith;
}

pub on_child_ended-cases :
    (env : Env) (h : Host)
    → ((on_child_ended env h).0 ≡ h) × (is_some h.child_exit ≡ true)
      ⊎ ((h.child_exit ≡ none)
          × ((on_child_ended env h).0 ≡ settle (record h { child_exit = some (exit_of h) })))
unfolding on_child_ended report_exit
on_child_ended-cases env h = elim (Option-cases h.child_exit) [
  | inl n ↦ inr (
    n,
    ap (λ o. (when (not (is_some o)) (report_exit env (exit_of h)) h).0) n
        ∙ tell_exit-state env (exit_of h) (record h { child_exit = some (exit_of h) }),
  )
  | inr (x, s) ↦
      inl (ap (λ o. (when (not (is_some o)) (report_exit env (exit_of h)) h).0) s, ap is_some s)
]

Advance-refl : (h : Host) → Ends h → Advance h h
Advance-refl h e = Advance-Quiet (Quiet-refl h) e

pub on_child_ended-Advance : (env : Env) (h : Host) → Ends h → Advance h (on_child_ended env h).0
on_child_ended-Advance env h e = elim (on_child_ended-cases env h) [
  | inl (s, _) ↦ rw s (Advance-refl h e)
  | inr (n, s) ↦ rw s (settle-Advance h (exit_of h) e n)
]

Advance-trans : {h h1 h2 : Host} → Advance h h1 → Advance h1 h2 → Advance h h2
Advance-trans p q = record {
  ends = q.ends;
  going = λ i. q.going (p.going i);
  less = λ i. omega (arith, p.less i, q.less (p.going i));
}

-- A step that does so from every state of the invariant.
pub record IsAdvance (m : Action) : Type 0 where
  pub at : (h : Host) → Ends h → Advance h (m h).0

pub quiet-IsAdvance : (m : Action) → IsQuiet m → IsAdvance m
quiet-IsAdvance m q = record { at = λ h e. Advance-Quiet (q.at h) e }

pub >>-IsAdvance : (m k : Action) → IsAdvance m → IsAdvance k → IsAdvance (m >> k)
>>-IsAdvance m k p q = record {
  at = λ h e. Advance-trans (p.at h e) (q.at (m h).0 (p.at h e).ends);
}

pub reading-IsAdvance : (f : Host → Action) → ((h : Host) → IsAdvance (f h)) → IsAdvance (reading f)
reading-IsAdvance f p = record { at = λ h. (p h).at h }

pub when-IsAdvance : (b : Bool) (m : Action) → IsAdvance m → IsAdvance (when b m)
when-IsAdvance true m p = p
when-IsAdvance false m p = record { at = Advance-refl }

pub with_some-IsAdvance {ℓ} :
    {A : Type ℓ} (o : Option A) (k : A → Action)
    → ((a : A) → IsAdvance (k a))
    → IsAdvance (with_some o k)
with_some-IsAdvance none k p = record { at = Advance-refl }
with_some-IsAdvance (some a) k p = p a

pub ruleset advance_rules = (
  quiet-IsAdvance, >>-IsAdvance, reading-IsAdvance, when-IsAdvance, with_some-IsAdvance,
  quiet_rules,
)

pub stop-IsAdvance : (code : ℕ) → IsAdvance (stop code)
stop-IsAdvance code = record { at = stop-Advance code }

pub schedule_stop-IsAdvance : (ms : ℕ) → IsAdvance (schedule_stop ms)
schedule_stop-IsAdvance ms = record { at = schedule_stop-Advance ms }

pub on_child_ended-IsAdvance : (env : Env) → IsAdvance (on_child_ended env)
on_child_ended-IsAdvance env = record { at = on_child_ended-Advance env }

pub terminate_child-IsAdvance : (env : Env) (ms : ℕ) → IsAdvance (terminate_child env ms)
unfolding terminate_child end_stdin schedule_stop stop
terminate_child-IsAdvance env ms = record {
  at = λ h e. record {
    ends = record {
      ended = ground (arith, e.ended);
      terminated = ground (arith, e.terminated);
      finished = ground (arith, e.finished, e.spawned);
      spawned = ground (arith, e.spawned);
    };
    going = ground arith;
    less = ground arith;
  };
}

pub fail_child-IsAdvance : (env : Env) (x : ExitError) → IsAdvance (fail_child env x)
unfolding fail_child
fail_child-IsAdvance env x = search (advance_rules, on_child_ended-IsAdvance) depth 8

pub on_message-IsAdvance :
    (env : Env) (socket : ℕ) (c : Connection) (m : Inbound) → IsAdvance (on_message env socket c m)
unfolding on_message
on_message-IsAdvance env socket c State.not_json = search advance_rules
on_message-IsAdvance env socket c State.no_type = search advance_rules
on_message-IsAdvance env socket c (State.hello v) =
    search (advance_rules, identify-IsQuiet, attach-IsQuiet)
on_message-IsAdvance env socket c (State.write v) =
    search (advance_rules, identify-IsQuiet, accept_write-IsQuiet)
on_message-IsAdvance env socket c State.status = search (advance_rules, identify-IsQuiet)
on_message-IsAdvance env socket c (State.terminate v w) =
    search (advance_rules, identify-IsQuiet, watch_exit-IsQuiet, terminate_child-IsAdvance)
on_message-IsAdvance env socket c (State.unknown n) = search (advance_rules, identify-IsQuiet)

pub on_socket_close-IsAdvance : (s : ℕ) → IsAdvance (on_socket_close s)
unfolding on_socket_close
on_socket_close-IsAdvance s = search (advance_rules, schedule_stop-IsAdvance)
