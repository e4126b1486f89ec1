-- ===== src/Transport/Rpc/State.antt =====
-- The state of a `JsonRpcClient`, what reaches it and what it does. A JSON value is the text that it
-- is written as. A promise or a handler is known by a number: a request by its id, a request of the
-- server by its place in their order. Log messages are left out.
use uber_coder.Prelude.{
  is_some, ℕ, Bool, false, true, Option, none, some, List, [], ◌∷◌, Text, ◌==◌, not, filter,
}

abbrev pub default_request_timeout_ms : ℕ
default_request_timeout_ms = 60000

abbrev pub max_concurrent_server_request_handlers : ℕ
max_concurrent_server_request_handlers = 32

-- The three codes that the client names, and any code that the other side or a handler gives.
pub data ErrorCode : Type 0 where
  method_not_found internal_error overloaded : ErrorCode
  code : Text → ErrorCode

-- `JsonRpcId`; an id that is a natural number can be the client's own.
pub data RpcId : Type 0 where
  natural : ℕ → RpcId
  other : Text → RpcId

pub data ExitReason : Type 0 where
  exited disconnected : ExitReason

pub record TransportExit : Type 0 where
  pub code : Option ℕ
  pub signal : Option Text
  pub reason : ExitReason
  pub error : Option Text

pub record Exit : Type 0 where
  pub info : TransportExit
  pub expected : Bool
  pub stderr_tail : Text

-- How the process ended, in a phrase: a message, a lost connection, a signal, or an exit code.
pub data ExitText : Type 0 where
  message_text signal_text : Text → ExitText
  connection_lost : ExitText
  exit_code : Option ℕ → ExitText

-- `exitReason`
unfoldable pub exit_reason : TransportExit → ExitText
exit_reason e = by_error e.error
  where
    by_signal : Option Text → ExitText
    by_signal none = exit_code e.code
    by_signal (some s) = signal_text s

    by_reason : ExitReason → ExitText
    by_reason disconnected = connection_lost
    by_reason exited = by_signal e.signal

    by_error : Option Text → ExitText
    by_error none = by_reason e.reason
    by_error (some m) = message_text m

-- The client's own messages, with what they insert, or one that it is given.
pub data Message : Type 0 where
  no_method : Text → Message
  too_many_requests : Message
  internal given : Text → Message

pub record Problem : Type 0 where
  pub code : ErrorCode
  pub message : Message
  pub data_value : Option Text

pub data Frame : Type 0 where
  request : ℕ → Text → Option Text → Frame
  notification : Text → Option Text → Frame
  result : RpcId → Text → Frame
  problem : RpcId → Problem → Frame

-- How the promise of a request settles. `exit_error` says whether the request was sent.
pub data Outcome : Type 0 where
  value : Text → Outcome
  request_error : Text → Problem → Outcome
  timeout_error : Text → ℕ → Outcome
  exit_error : Bool → Outcome

-- In the order in which the client does them.
pub data Effect : Type 0 where
  writes : Frame → Effect
  -- The answer to the server's request of this number.
  answers : ℕ → Frame → Effect
  settles : ℕ → Outcome → Effect
  -- A request, a notification or a late answer that the client does not take any more.
  refuses : Effect
  -- The `written` promise of a request.
  marks_written fails_written : ℕ → Effect
  runs_on_result : ℕ → Text → Effect
  notifies : ℕ → Text → Option Text → Effect
  reports_run : ℕ → Option Text → Effect
  unmatched : RpcId → Effect
  calls_handler : ℕ → Text → Effect
  tells_exit : ℕ → Exit → Effect
  closes_transport : Bool → Effect

pub record Pending : Type 0 where
  pub method : Text
  -- 0 for no timer.
  pub timeout_ms : ℕ

-- A request of the server that a handler has not answered yet.
pub record ServerRequest : Type 0 where
  pub id : RpcId
  pub counted : Bool

pub record Client : Type 0 where
  pub last_id : ℕ
  pub default_timeout_ms : ℕ
  pub pending : List (ℕ × Pending)
  pub notification_handlers : List ℕ
  pub exit_handlers : List ℕ
  pub request_handlers : List Text
  pub timeout_run : ℕ
  pub unanswered : List (ℕ × ServerRequest)
  pub active_server_requests : ℕ
  pub closing : Bool
  pub close_requested : Bool
  pub finished : Option Exit
  pub notifications : ℕ
  pub server_requests : ℕ
  pub unroutable_frames : ℕ
  pub parse_failures : ℕ

unfoldable pub new_client : ℕ → ℕ → Client
new_client last_id default_timeout_ms = record {
  last_id = last_id;
  default_timeout_ms = default_timeout_ms;
  pending = [];
  notification_handlers = [];
  exit_handlers = [];
  request_handlers = [];
  timeout_run = 0;
  unanswered = [];
  active_server_requests = 0;
  closing = false;
  close_requested = false;
  finished = none;
  notifications = 0;
  server_requests = 0;
  unroutable_frames = 0;
  parse_failures = 0;
}

-- `exited`
abbrev pub is_exited : Client → Bool
is_exited c = is_some c.finished

-- A `Map` with numbers for keys.
module _ {A : Type 0} where
  abbrev pub get : ℕ → List (ℕ × A) → Option A
  get k [] = none
  get k ((j, a) ∷ xs) = elim (j == k) [ true ↦ some a | false ↦ get k xs ]

  abbrev pub delete : ℕ → List (ℕ × A) → List (ℕ × A)
  delete k = filter λ x. not (x.0 == k)
