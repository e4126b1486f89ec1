-- ===== src/Transport/Host/State.antt =====
-- The state of a `SessionHost`, the messages of its wire protocol, and what it asks of Node and of
-- the kernel. A socket is known by a number; a message is what `JSON.parse` made of a line.
use uber_coder.Prelude.{
  ℕ, String, Bool, false, true, Option, none, some, List, Text, ◌*◌, min, any, ◌==◌, Option,
}
use uber_coder.Transport.Replay.{ReplayBuffer}

abbrev pub max_grace_ms : ℕ
max_grace_ms = 60000

abbrev pub max_client_backlog_bytes : ℕ
max_client_backlog_bytes = 64 * 1024 * 1024

abbrev pub stderr_tail_bytes : ℕ
stderr_tail_bytes = 64 * 1024

abbrev pub failed_spawn_linger_ms : ℕ
failed_spawn_linger_ms = 5000

abbrev pub default_linger_ms : ℕ
default_linger_ms = 60000

abbrev pub default_close_grace_ms : ℕ
default_close_grace_ms = 5000

abbrev pub default_term_grace_ms : ℕ
default_term_grace_ms = 5000

abbrev pub host_protocol_version : ℕ
host_protocol_version = 1

-- A field of a parsed message, as far as the host looks at it. `fraction n` is a number between `n`
-- and `n + 1`; `negative` any other finite number; `other` includes a missing field.
pub data Value : Type 0 where
  natural fraction : ℕ → Value
  negative not_finite other : Value
  text : Text → Value

-- A line of a client, parsed. `no_type` is JSON that is no object with a text `type`.
pub data Inbound : Type 0 where
  not_json no_type : Inbound
  hello : Value → Inbound
  write : Value → Inbound
  status : Inbound
  terminate : Value → Value → Inbound
  unknown : String → Inbound

pub data Signal : Type 0 where
  sigterm sigkill : Signal

-- `{ code, signal }` of Node's `exit` and `close` events.
pub record RawExit : Type 0 where
  pub code : Option ℕ
  pub signal : Option String

pub record ExitError : Type 0 where
  pub code : Option String
  pub message : String

pub record ChildExit : Type 0 where
  pub raw : RawExit
  pub stderr_tail : List (List ℕ)
  pub error : Option ExitError

pub record Welcome : Type 0 where
  pub version : ℕ
  pub child_pid : Option ℕ
  pub alive : Bool
  pub seq : ℕ
  pub first_seq : ℕ
  pub ever_wrote : Bool
  pub spawn_error : Option ExitError

pub record Status : Type 0 where
  pub pid : Option ℕ
  pub alive : Bool
  pub seq : ℕ
  pub first_seq : ℕ
  pub ever_wrote : Bool
  pub clients : ℕ

pub data Outbound : Type 0 where
  welcome : Welcome → Outbound
  gap : ℕ → Outbound
  entry : ℕ × Text → Outbound
  exit : ChildExit → Outbound
  replaced : Outbound
  status_answer : Status → Outbound
  error unknown_type : String → Outbound

-- The callbacks that `stop` leaves behind: they read nothing but what it gave them.
pub data Callback : Type 0 where
  destroy_sockets : List ℕ → Callback
  finish : ℕ → Callback

-- In the order in which the host asks for them. `removes_record` is a call of `removeRecord`, which
-- looks at the record file before it deletes it.
pub data Effect : Type 0 where
  sends : ℕ → Outbound → Effect
  ends destroys : ℕ → Effect
  kills_group kills_process : ℕ → Signal → Effect
  writes_stdin : Text → Effect
  ends_stdin removes_record : Effect
  -- `server.close`, and what runs once it has closed; and a timer.
  closes_server : Callback → Effect
  starts_timer : ℕ → Callback → Effect
  unlinks_socket : Effect
  resolves_done : ℕ → Effect

pub record Connection : Type 0 where
  pub identified : Bool
  pub attached : Bool

-- Where the promise of `terminateChild` stands: before the first call, in one of its three waits
-- (the first with the grace of the second), or behind them.
pub data Phase : Type 0 where
  idle : Phase
  wait_close : ℕ → Phase
  wait_term wait_kill over : Phase

pub record Host : Type 0 where
  pub close_grace_ms : ℕ
  pub term_grace_ms : ℕ
  pub linger_ms : ℕ
  pub buffer : ReplayBuffer
  pub connections : List (ℕ × Connection)
  pub exit_watchers : List ℕ
  pub client : Option ℕ
  pub has_child : Bool
  pub child_pid : Option ℕ
  pub child_exit : Option ChildExit
  pub raw_exit : Option RawExit
  pub fatal_error : Option ExitError
  pub spawn_error : Option ExitError
  pub stdin_ended : Bool
  pub lines_written : ℕ
  pub stderr_chunks : List (List ℕ)
  pub stderr_bytes : ℕ
  -- The delay of the pending stop timer.
  pub linger : Option ℕ
  pub phase : Phase
  pub stopped : Bool

-- What Node and the kernel say while one event runs.
pub record Env : Type 0 where
  pub now : ℕ
  -- Not destroyed, and writable; and the bytes that wait to be sent.
  pub writable : ℕ → Bool
  pub backlog : ℕ → ℕ
  -- The child's stdin is neither destroyed nor ended by the other side.
  pub stdin_open : Bool
  -- `process.kill(-pid)` succeeds; the group has live members.
  pub group_signalled : Bool
  pub group_has_members : Bool
  pub byte_length : Text → ℕ

-- `clampGrace`
unfoldable pub clamp_grace : Value → ℕ → ℕ
clamp_grace (natural n) fallback = min n max_grace_ms
clamp_grace (fraction n) fallback = min n max_grace_ms
clamp_grace negative fallback = 0
clamp_grace not_finite fallback = fallback
clamp_grace other fallback = fallback
clamp_grace (text t) fallback = fallback

-- The cursor of a `hello`, where it is a non-negative integer.
unfoldable pub cursor_of : Value → Option ℕ
cursor_of (natural n) = some n
cursor_of (fraction n) = none
cursor_of negative = none
cursor_of not_finite = none
cursor_of other = none
cursor_of (text t) = none

-- The line of a `write`, where it is a text of one line.
unfoldable pub written_line : Value → Option Text
written_line (text t) = elim (any (λ c. c == 10) t) [ true ↦ none | false ↦ some t ]
written_line (natural n) = none
written_line (fraction n) = none
written_line negative = none
written_line not_finite = none
written_line other = none
