-- ===== src/Transport/Host/Child.antt =====
-- The methods of a `SessionHost` that deal with the provider child: its output, its end, and the
-- staged termination. A wait of `terminateChild` ends by `wait_done`, with what the wait answers.
use uber_coder.Prelude.{
  ℕ, ◌+◌, ◌-◌, Bool, true, false, not, ◌||◌, none, some, List, [], ◌∷◌, ◌++◌, leb, if◌then◌else◌,
  is_some, length, drop, Text, or_else,
}
use uber_coder.Transport.Replay.{push}
use uber_coder.Transport.Host.State.{
  Host, Env, RawExit, ExitError, ChildExit, Phase, idle, wait_close, wait_term, wait_kill, over,
  ends, writes_stdin, ends_stdin, sigterm, sigkill, exit, entry, stderr_tail_bytes,
}
use uber_coder.Transport.Host.Actions.{
  Action, ◌>>◌, skip, ask, modify, reading, when, send, send_client, signal_group, sweep_group,
  schedule_stop,
}

-- `onChildLine`
unfoldable pub on_child_line : Env → Text → Action
on_child_line env line = reading λ h.
    let (buffer, seq) = push env.byte_length line env.now h.buffer in
    modify (λ s. record s { buffer = buffer }) >> send_client env (entry (seq, line) ∷ [])

-- The loop of `appendStderr`: what is left of the chunks, and their bytes.
unfoldable pub trim_stderr : List (List ℕ) → ℕ → List (List ℕ) × ℕ
trim_stderr [] bytes = ([], bytes)
trim_stderr (c ∷ cs) bytes =
    let rest = trim_stderr cs (bytes - length c) in
    let excess = bytes - stderr_tail_bytes in
    if leb bytes stderr_tail_bytes
    then (c ∷ cs, bytes)
    else if leb (length c) excess
    then rest
    else (drop excess c ∷ cs, bytes - excess)

unfoldable pub append_stderr : List ℕ → Action
append_stderr chunk = modify λ h.
    let (chunks, bytes) =
      trim_stderr (h.stderr_chunks ++ chunk ∷ []) (h.stderr_bytes + length chunk) in
    record h { stderr_chunks = chunks; stderr_bytes = bytes }

unfoldable pub exit_of : Host → ChildExit
exit_of h = record {
  raw = elim h.raw_exit [ none ↦ record { code = none; signal = none } | some raw ↦ raw ];
  stderr_tail = h.stderr_chunks;
  error = h.fatal_error;
}

abbrev pub is_idle : Phase → Bool
is_idle idle = true
is_idle (wait_close ms) = false
is_idle wait_term = false
is_idle wait_kill = false
is_idle over = false

-- Everybody who watches for the exit is told, and that connection is ended.
unfoldable pub tell_watchers : Env → ChildExit → List ℕ → Action
tell_watchers env e [] = skip
tell_watchers env e (w ∷ ws) = send env w (exit e) >> ask (ends w ∷ []) >> tell_watchers env e ws

-- What `onChildEnded` does once it has recorded the exit.
unfoldable pub tell_exit : Env → ChildExit → Action
tell_exit env e =
    sweep_group env
    >> send_client env (exit e ∷ [])
    >> (reading λ h. tell_watchers env e h.exit_watchers)
    >> modify (λ s. record s { exit_watchers = [] })
    >> (reading λ h. schedule_stop (if is_idle h.phase then h.linger_ms else 0))

unfoldable pub report_exit : Env → ChildExit → Action
report_exit env e = modify (λ s. record s { child_exit = some e }) >> tell_exit env e

-- `onChildEnded`
unfoldable pub on_child_ended : Env → Action
on_child_ended env = reading λ h. when (not (is_some h.child_exit)) (report_exit env (exit_of h))

-- Node's `exit` event; the 200 ms for the stdout pipe end by `flush_over`.
unfoldable pub on_exit : RawExit → Action
on_exit raw = modify λ h. record h { raw_exit = some raw }

-- Node's `close` event.
unfoldable pub on_close : Env → RawExit → Action
on_close env raw =
    modify (λ h. record h { raw_exit = or_else h.raw_exit (some raw) }) >> on_child_ended env

-- `failChild`
unfoldable pub fail_child : Env → ExitError → Action
fail_child env error = reading λ h. when (not (is_some h.fatal_error || is_some h.child_exit)) (
    modify (λ s. record s { fatal_error = some error })
    >> signal_group env sigkill
    >> modify (λ s. record s {
      raw_exit = or_else s.raw_exit (some (record { code = none; signal = some "SIGKILL" }));
    })
    >> on_child_ended env)

-- `endStdin`
unfoldable pub end_stdin : Action
end_stdin = reading λ h.
    when (not (h.stdin_ended || not h.has_child))
      (modify (λ s. record s { stdin_ended = true }) >> ask (ends_stdin ∷ []))

-- `writeToChild`
unfoldable pub write_to_child : Env → Text → Action
write_to_child env line = reading λ h.
    when (not (is_some h.child_exit || h.stdin_ended || not h.has_child || not env.stdin_open)) (
      modify (λ s. record s { lines_written = s.lines_written + 1 })
      >> ask (writes_stdin line ∷ []))

-- `terminate`, and `terminateChild` up to its first wait. A second call changes nothing.
unfoldable pub terminate_child : Env → ℕ → Action
terminate_child env term_grace_ms = reading λ h.
    if not (is_idle h.phase)
    then skip
    else if is_some h.child_exit || not h.has_child
    then sweep_group env >> schedule_stop 0 >> modify (λ s. record s { phase = over })
    else end_stdin >> modify (λ s. record s { phase = wait_close term_grace_ms })

-- `waitChildExit` answers at once where the child has ended, so the code behind a wait runs on.
unfoldable pub enter_wait : Env → Phase → Action → Action
enter_wait env phase done =
    reading λ h. if is_some h.child_exit then done else modify (λ s. record s { phase = phase })

-- The end of `terminateChild`: an unkillable child is reported, and the host stops anyway.
unfoldable pub last_wait_done : Env → Action
last_wait_done env = modify (λ s. record s { phase = over }) >> on_child_ended env

unfoldable pub ended_in_time : Env → Action
ended_in_time env = modify (λ s. record s { phase = over }) >> sweep_group env

-- What `terminateChild` does behind each of its waits; `in_time` is what the wait answered.
unfoldable pub wait_answer : Env → Bool → Phase → Action
wait_answer env in_time idle = skip
wait_answer env in_time over = skip
wait_answer env in_time (wait_close term_grace_ms) =
    if in_time
    then ended_in_time env
    else signal_group env sigterm >> enter_wait env wait_term (ended_in_time env)
wait_answer env in_time wait_term =
    if in_time
    then ended_in_time env
    else signal_group env sigkill >> enter_wait env wait_kill (last_wait_done env)
wait_answer env in_time wait_kill = last_wait_done env

unfoldable pub wait_done : Env → Bool → Action
wait_done env in_time = reading λ h. wait_answer env in_time h.phase
