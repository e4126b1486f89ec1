-- ===== src/Transport/Host/Events.antt =====
-- The callbacks that drive a `SessionHost`: sockets, the child's streams and its end, timers, and
-- the signals that `main` passes on. A run is any sequence of them.
use uber_coder.Prelude.{
  ℕ, true, false, not, ◌&&◌, none, some, List, [], ◌∷◌, ◌==◌, if◌then◌else◌, filter, is_some, Text,
}
use uber_coder.Transport.Replay.{new_buffer, replay_max_bytes, replay_max_age_ms}
use uber_coder.Transport.Host.State.{
  default_close_grace_ms, default_term_grace_ms, default_linger_ms, Host, Env, Inbound, RawExit,
  ExitError, idle, destroys, sigkill, failed_spawn_linger_ms,
}
use uber_coder.Transport.Host.Actions.{
  Action, ◌>>◌, skip, ask, modify, reading, when, with_some, stop, schedule_stop, signal_group,
}
use uber_coder.Transport.Host.Child.{
  on_child_line, append_stderr, on_exit, on_close, on_child_ended, fail_child, terminate_child,
  wait_done,
}
use uber_coder.Transport.Host.Clients.{connection_of, is_client, on_message}

pub data Event : Type 0 where
  connects : ℕ → Event
  identify_timeout : ℕ → Event
  closes : ℕ → Event
  message : ℕ → Inbound → Event
  child_line : Text → Event
  child_stderr : List ℕ → Event
  line_overflow : ExitError → Event
  child_exits : RawExit → Event
  flush_over : Event
  child_closes : RawExit → Event
  wait_over : Event
  linger_over : Event
  term_signal : Event
  crashes : Event

-- `onConnection`: a socket of its own number.
unfoldable pub on_connection : ℕ → Action
on_connection socket = modify λ h. record h {
  connections =
      (socket, record { identified = false; attached = false })
      ∷ filter (λ c. not (c.0 == socket)) h.connections;
}

unfoldable pub on_identify_timeout : ℕ → Action
on_identify_timeout socket = reading λ h.
    with_some (connection_of socket h.connections)
      λ c. when (not c.identified) (ask (destroys socket ∷ []))

-- The `close` handler of a socket.
unfoldable pub on_socket_close : ℕ → Action
on_socket_close socket = reading λ h. with_some (connection_of socket h.connections) λ c.
    modify (λ s. record s {
      connections = filter (λ x. not (x.0 == socket)) s.connections;
      exit_watchers = filter (λ w. not (w == socket)) s.exit_watchers;
      client = if is_client socket s then none else s.client;
    })
    >> when (is_some h.spawn_error && c.attached) (schedule_stop 0)

unfoldable pub on_line : Env → ℕ → Inbound → Action
on_line env socket m =
    reading λ h. with_some (connection_of socket h.connections) λ c. on_message env socket c m

-- The stop timer; it fires only while one is pending.
unfoldable pub on_linger_over : Action
on_linger_over = reading λ h. when (is_some h.linger) (stop 0)

-- A wait of `terminateChild` answers: `true` if the child's end woke it, `false` if its timer ran out
-- first. Its waiter is woken where the end is recorded, so the answer is whether that has happened.
unfoldable pub on_wait_over : Env → Action
on_wait_over env = reading λ h. wait_done env (is_some h.child_exit)

-- `abort`
unfoldable pub abort : Env → Action
abort env = signal_group env sigkill >> stop 1

unfoldable pub step : Env → Event → Action
step env (connects socket) = on_connection socket
step env (identify_timeout socket) = on_identify_timeout socket
step env (closes socket) = on_socket_close socket
step env (message socket m) = on_line env socket m
step env (child_line line) = on_child_line env line
step env (child_stderr chunk) = append_stderr chunk
step env (line_overflow e) = fail_child env e
step env (child_exits raw) = on_exit raw
step env flush_over = on_child_ended env
step env (child_closes raw) = on_close env raw
step env wait_over = on_wait_over env
step env linger_over = on_linger_over
step env term_signal = reading λ h. terminate_child env h.term_grace_ms
step env crashes = abort env

unfoldable pub run : List (Env × Event) → Action
run [] = skip
run ((env, e) ∷ es) = step env e >> run es

pub record Options : Type 0 where
  pub close_grace_ms : ℕ
  pub term_grace_ms : ℕ
  pub linger_ms : ℕ
  pub replay_max_bytes : ℕ
  pub replay_max_age_ms : ℕ

-- What the constructor takes where nothing is given.
abbrev pub default_options : Options
default_options = record {
  close_grace_ms = default_close_grace_ms;
  term_grace_ms = default_term_grace_ms;
  linger_ms = default_linger_ms;
  replay_max_bytes = replay_max_bytes;
  replay_max_age_ms = replay_max_age_ms;
}

-- The host once `start` has spawned the child and listens.
unfoldable pub started : Options → ℕ → Host
started o pid = record {
  close_grace_ms = o.close_grace_ms;
  term_grace_ms = o.term_grace_ms;
  linger_ms = o.linger_ms;
  buffer = new_buffer o.replay_max_bytes o.replay_max_age_ms;
  connections = [];
  exit_watchers = [];
  client = none;
  has_child = true;
  child_pid = some pid;
  child_exit = none;
  raw_exit = none;
  fatal_error = none;
  spawn_error = none;
  stdin_ended = false;
  lines_written = 0;
  stderr_chunks = [];
  stderr_bytes = 0;
  linger = none;
  phase = idle;
  stopped = false;
}

-- The host once `start` has failed to spawn the child: it serves the failure for a while.
unfoldable pub failed_start : Options → ExitError → Host
failed_start o e = record (started o 0) {
  child_pid = none;
  spawn_error = some e;
  child_exit =
      some
        (record { raw = record { code = none; signal = none }; stderr_tail = []; error = some e });
  linger = some failed_spawn_linger_ms;
}
