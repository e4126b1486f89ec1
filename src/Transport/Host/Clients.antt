-- ===== src/Transport/Host/Clients.antt =====
-- The methods of a `SessionHost` that serve its Unix socket: `attach`, `statusMessage` and the
-- handler of a client's line, `onMessage`. A line arrives as what `JSON.parse` makes of it.
use uber_coder.Prelude.{
  ℕ, Bool, true, false, not, ◌&&◌, Option, none, some, List, [], ◌∷◌, ◌++◌, map, ltb, ◌==◌,
  if◌then◌else◌, is_some, any,
}
use uber_coder.Transport.Replay.{first_seq, since, trim, Replay}
use uber_coder.Transport.Host.State.{
  Host, Env, Connection, Value, Inbound, Outbound, Welcome, Status, not_json, no_type, hello, write,
  status, terminate, unknown, welcome, gap, entry, replaced, status_answer, error, unknown_type,
  ends, clamp_grace, cursor_of, written_line, host_protocol_version,
}
use uber_coder.Transport.Host.Actions.{
  Action, ◌>>◌, skip, ask, modify, reading, when, with_some, send, send_all, exit_messages,
}
use uber_coder.Transport.Host.Child.{write_to_child, terminate_child}

-- `this.connections.get(socket)`, and the handlers' changes to that object.
unfoldable pub connection_of : ℕ → List (ℕ × Connection) → Option Connection
connection_of socket [] = none
connection_of socket ((s, c) ∷ cs) = if s == socket then some c else connection_of socket cs

unfoldable pub update_connection :
    ℕ → (Connection → Connection) → List (ℕ × Connection) → List (ℕ × Connection)
update_connection socket f [] = []
update_connection socket f ((s, c) ∷ cs) =
    (s, if s == socket then f c else c) ∷ update_connection socket f cs

unfoldable pub is_client : ℕ → Host → Bool
is_client socket h = elim h.client [ none ↦ false | some c ↦ c == socket ]

unfoldable pub welcome_of : Host → Welcome
welcome_of h = record {
  version = host_protocol_version;
  child_pid = h.child_pid;
  alive = not (is_some h.child_exit);
  seq = h.buffer.last_seq;
  first_seq = first_seq h.buffer;
  ever_wrote = ltb 0 h.lines_written;
  spawn_error = h.spawn_error;
}

-- What follows the welcome for a cursor: a `gap` if lines are missing, then the lines.
unfoldable pub replay_messages : ℕ → Replay → List Outbound
replay_messages first r = (if r.gap then gap first ∷ [] else []) ++ map entry r.lines

-- The replay of `attach`, where the `hello` has a cursor.
unfoldable pub replay : Env → ℕ → Option ℕ → Action
replay env socket none = skip
replay env socket (some n) = reading λ h.
    let (buffer, r) = since n env.now h.buffer in
    modify (λ s. record s { buffer = buffer })
    >> send_all env socket (replay_messages (first_seq buffer) r)

-- The client that was current before, if it is another one.
unfoldable pub replace_previous : Env → ℕ → Option ℕ → Action
replace_previous env socket none = skip
replace_previous env socket (some p) =
    when (not (p == socket)) (send env p replaced >> ask (ends p ∷ []))

-- What a new client reads first: the welcome, the replay, and the exit if there has been one.
unfoldable pub greet : Env → ℕ → Value → Action
greet env socket since_seq =
    modify (λ s. record s { buffer = trim env.now s.buffer })
    >> (reading λ h. send env socket (welcome (welcome_of h)))
    >> replay env socket (cursor_of since_seq)
    >> (reading λ h. send_all env socket (exit_messages h.child_exit))

-- `attach`
unfoldable pub attach : Env → ℕ → Value → Action
attach env socket since_seq = reading λ h0.
    modify (λ s. record s {
      client = some socket;
      connections = update_connection socket (λ c. record c { attached = true }) s.connections;
    })
    >> replace_previous env socket h0.client
    >> greet env socket since_seq

unfoldable pub status_of : Host → Status
status_of h = record {
  pid = h.child_pid;
  alive = not (is_some h.child_exit);
  seq = h.buffer.last_seq;
  first_seq = first_seq h.buffer;
  ever_wrote = ltb 0 h.lines_written;
  clients = if is_some h.client then 1 else 0;
}

-- A `terminate` from anyone but the client makes the sender a watcher of the exit.
unfoldable pub watch_exit : Env → ℕ → Action
watch_exit env socket = reading λ h. elim h.child_exit [
  | some e ↦ send_all env socket (exit_messages (some e)) >> ask (ends socket ∷ [])
  | none ↦ when (not (is_client socket h)) (
      modify λ s. record s {
        exit_watchers =
            if any (λ w. w == socket) s.exit_watchers
            then s.exit_watchers
            else s.exit_watchers ++ socket ∷ [];
      })
]

unfoldable pub identify : ℕ → Action
identify socket = modify λ s. record s {
  connections = update_connection socket (λ c. record c { identified = true }) s.connections;
}

unfoldable pub accept_write : Env → ℕ → Connection → Value → Action
accept_write env socket connection line = reading λ h.
    when (connection.attached && is_client socket h)
      (with_some (written_line line) λ l. write_to_child env l)

-- `onMessage`
unfoldable pub on_message : Env → ℕ → Connection → Inbound → Action
on_message env socket connection not_json = send env socket (error "The message is not JSON.")
on_message env socket connection no_type = send env socket (error "The message has no type.")
on_message env socket connection (hello since_seq) = identify socket >> attach env socket since_seq
on_message env socket connection (write line) =
    identify socket >> accept_write env socket connection line
on_message env socket connection status =
    identify socket
    >> modify (λ s. record s { buffer = trim env.now s.buffer })
    >> (reading λ h. send env socket (status_answer (status_of h)))
    >> when (not connection.attached) (ask (ends socket ∷ []))
on_message env socket connection (terminate close_grace term_grace) =
    identify socket
    >> watch_exit env socket
    >> (reading λ h. terminate_child env (clamp_grace term_grace h.term_grace_ms))
on_message env socket connection (unknown name) =
    identify socket >> send env socket (unknown_type name)
