-- ===== src/Transport/Rpc/Events.antt =====
-- The calls and callbacks that drive a `JsonRpcClient`. A line arrives as what `JSON.parse` makes of it.
use uber_coder.Prelude.{
  ℕ, ◌+◌, Bool, true, not, Option, none, some, List, [], ◌∷◌, ◌++◌, map, Text, filter, any, ◌==◌,
  if◌then◌else◌, is_some,
}
use uber_coder.Transport.Rpc.State.{
  Client, Effect, Frame, RpcId, TransportExit, notification, result, writes, refuses, marks_written,
  notifies, tells_exit, closes_transport,
}
use uber_coder.Transport.Rpc.Requests.{
  Response, start_request, on_timeout, on_write_failed, end_run, handle_response, finish,
}
use uber_coder.Transport.Rpc.Server.{Settled, handle_server_request, hold, settle_handler}

-- The `id` of a frame: missing, an id, or some other value.
pub data IdField : Type 0 where
  missing invalid : IdField
  valid : RpcId → IdField

pub data Line : Type 0 where
  blank not_json not_record : Line
  -- A frame with a method, and one without: its id, and its result or error if it has one.
  call : Text → IdField → Option Text → Line
  reply : IdField → Option Response → Line

unfoldable pub add_handler : ℕ → List ℕ → List ℕ
add_handler h hs = if any (λ x. x == h) hs then hs else hs ++ h ∷ []

unfoldable pub unroutable : Client → Client × List Effect
unroutable c = (record c { unroutable_frames = c.unroutable_frames + 1 }, [])

-- A frame with a method is a request if it has an id, a notification if it has none.
unfoldable pub handle_call : Text → IdField → Option Text → Client → Client × List Effect
handle_call method missing params c = (
  record c { notifications = c.notifications + 1 },
  map (λ h. notifies h method params) c.notification_handlers,
)
handle_call method invalid params c = unroutable c
handle_call method (valid id) params c = handle_server_request id method c

unfoldable pub handle_frame : Line → Client → Client × List Effect
handle_frame blank c = (c, [])
handle_frame not_json c = (record c { parse_failures = c.parse_failures + 1 }, [])
handle_frame not_record c = unroutable c
handle_frame (call method id params) c =
    let (c1, es) = end_run (some method) c in
    let (c2, fs) = handle_call method id params c1 in (c2, es ++ fs)
handle_frame (reply (valid id) (some r)) c = handle_response id r c
handle_frame (reply (valid id) none) c = unroutable c
handle_frame (reply missing r) c = unroutable c
handle_frame (reply invalid r) c = unroutable c

-- `handleLine`
unfoldable pub handle_line : Line → Client → Client × List Effect
handle_line l c = if is_some c.finished then (c, []) else handle_frame l c

-- `notify` and `replyToServerRequest`: a frame that nothing waits for.
unfoldable pub send_frame : Frame → Client → Client × List Effect
send_frame f c = if is_some c.finished then (c, refuses ∷ []) else (c, writes f ∷ [])

-- `onExit`
unfoldable pub on_exit : ℕ → Client → Client × List Effect
on_exit h c = elim c.finished [
  | some exit ↦ (c, tells_exit h exit ∷ [])
  | none ↦ (record c { exit_handlers = add_handler h c.exit_handlers }, [])
]

-- `close`; a second call changes nothing.
unfoldable pub close : Bool → Client → Client × List Effect
close terminate c = if c.close_requested then (c, []) else (
  record c { close_requested = true; closing = true },
  (if is_some c.finished then [] else closes_transport terminate ∷ []),
)

pub data Event : Type 0 where
  requests : Text → Option Text → Option ℕ → Event
  -- Another client of the same counter takes the next id.
  takes_id : Event
  notifies_server : Text → Option Text → Event
  replies_late : RpcId → Text → Event
  subscribes subscribes_exit unsubscribes unsubscribes_exit : ℕ → Event
  registers : Text → Event
  closes : Bool → Event
  written : ℕ → Event
  write_failed : ℕ → Bool → Event
  timeout : ℕ → Event
  line : Line → Event
  handler_holds : ℕ → Event
  handler_settles : ℕ → Settled → Event
  ended : TransportExit → Text → Event

unfoldable pub step : Event → Client → Client × List Effect
step (requests method params ms) c = start_request method params ms c
step takes_id c = (record c { last_id = c.last_id + 1 }, [])
step (notifies_server method params) c = send_frame (notification method params) c
step (replies_late id v) c = send_frame (result id v) c
step (subscribes h) c =
    (record c { notification_handlers = add_handler h c.notification_handlers }, [])
step (subscribes_exit h) c = on_exit h c
step (unsubscribes h) c =
    (record c { notification_handlers = filter (λ x. not (x == h)) c.notification_handlers }, [])
step (unsubscribes_exit h) c =
    (record c { exit_handlers = filter (λ x. not (x == h)) c.exit_handlers }, [])
step (registers method) c = (record c { request_handlers = method ∷ c.request_handlers }, [])
step (closes terminate) c = close terminate c
step (written id) c = (c, marks_written id ∷ [])
step (write_failed id not_sent) c = on_write_failed id not_sent c
step (timeout id) c = on_timeout id c
step (line l) c = handle_line l c
step (handler_holds n) c = hold n c
step (handler_settles n s) c = settle_handler n s c
step (ended info tail) c = finish info tail c

unfoldable pub run : List Event → Client → Client × List Effect
run [] c = (c, [])
run (e ∷ es) c = let (c1, fs) = step e c in let (c2, gs) = run es c1 in (c2, fs ++ gs)
