-- ===== src/Transport/Rpc/Requests.antt =====
-- The requests of a `JsonRpcClient`: sending one, the ways in which its promise settles, and the end
-- of the channel, `finish`.
use uber_coder.Prelude.{
  ℕ, ◌+◌, Bool, true, false, Option, none, some, List, [], ◌∷◌, ◌++◌, map, Text, ltb, if◌then◌else◌,
  is_some, ◌&&◌,
}
use uber_coder.Transport.Rpc.State.{
  Client, Pending, Effect, Problem, Exit, TransportExit, RpcId, natural, other, request, writes,
  settles, refuses, fails_written, runs_on_result, reports_run, unmatched, tells_exit, value,
  request_error, timeout_error, exit_error, get, delete,
}

-- `requestIdCounter`: the id behind the last one.
abbrev pub next_request_id : Client → ℕ
next_request_id c = c.last_id + 1

-- `startRequest`: the table has the request before its frame is written.
unfoldable pub start_request : Text → Option Text → Option ℕ → Client → Client × List Effect
start_request method params timeout_ms c =
    let id = next_request_id c in
    let ms : ℕ = elim timeout_ms [ none ↦ c.default_timeout_ms | some t ↦ t ] in
    let entry : Pending = record { method = method; timeout_ms = ms } in
    if is_some c.finished then (c, refuses ∷ []) else (
      record c { last_id = id; pending = (id, entry) ∷ c.pending },
      writes (request id method params) ∷ [],
    )

-- The timer of a request; an entry that leaves the table takes its timer with it.
unfoldable pub on_timeout : ℕ → Client → Client × List Effect
on_timeout id c = elim (get id c.pending) [
  | none ↦ (c, [])
  | some entry ↦
      let timeouts = c.timeout_run + 1 in
      if ltb 0 entry.timeout_ms
      then (
        record c { pending = delete id c.pending; timeout_run = timeouts },
        settles id (timeout_error entry.method entry.timeout_ms)
            ∷ reports_run timeouts (some entry.method)
            ∷ [],
      )
      else (c, [])
]

-- The transport could not write the frame: `not_sent` when it certainly wrote nothing.
unfoldable pub on_write_failed : ℕ → Bool → Client → Client × List Effect
on_write_failed id not_sent c =
    if not_sent && is_some (get id c.pending)
    then (
      record c { pending = delete id c.pending },
      fails_written id ∷ settles id (exit_error false) ∷ [],
    )
    else (c, fails_written id ∷ [])

-- An answer, or any frame with a method, ends a run of timeouts.
unfoldable pub end_run : Option Text → Client → Client × List Effect
end_run method c =
    if ltb 0 c.timeout_run
    then (record c { timeout_run = 0 }, reports_run 0 method ∷ [])
    else (c, [])

-- What the result of a response is: an error object, or a value.
pub data Response : Type 0 where
  failed : Problem → Response
  answered : Text → Response

unfoldable pub settle_response : ℕ → Pending → Response → List Effect
settle_response id entry (failed p) = settles id (request_error entry.method p) ∷ []
settle_response id entry (answered v) = runs_on_result id v ∷ settles id (value v) ∷ []

unfoldable pub pending_of : RpcId → Client → Option (ℕ × Pending)
pending_of (natural n) c = elim (get n c.pending) [ none ↦ none | some entry ↦ some (n, entry) ]
pending_of (other t) c = none

-- What `handleResponse` does with the entry that it found.
unfoldable pub take_response :
    RpcId → Response → Option (ℕ × Pending) → Client → Client × List Effect
take_response id r none c = (c, unmatched id ∷ [])
take_response id r (some (n, entry)) c =
    (record c { pending = delete n c.pending }, settle_response n entry r)

-- `handleResponse`
unfoldable pub handle_response : RpcId → Response → Client → Client × List Effect
handle_response id r c =
    let found = pending_of id c in
    let method : Option Text = elim found [ none ↦ none | some (n, entry) ↦ some entry.method ] in
    let (c1, es) = end_run method c in let (c2, fs) = take_response id r found c1 in (c2, es ++ fs)

-- Every request that waits is rejected.
unfoldable pub reject_all : List (ℕ × Pending) → List Effect
reject_all [] = []
reject_all ((id, entry) ∷ ps) = settles id (exit_error true) ∷ reject_all ps

-- `finish`
unfoldable pub finish : TransportExit → Text → Client → Client × List Effect
finish info stderr_tail c =
    let exit : Exit = record { info = info; expected = c.closing; stderr_tail = stderr_tail } in
    if is_some c.finished then (c, []) else (
      record c {
        finished = some exit;
        pending = [];
        exit_handlers = [];
        notification_handlers = [];
      },
      reject_all c.pending ++ map (λ h. tells_exit h exit) c.exit_handlers,
    )
