-- ===== src/Transport/Rpc/Server.antt =====
-- The requests that the server makes of a `JsonRpcClient`: `handleServerRequest` and what its handler
-- does later, by the number of the request in their order.
use uber_coder.Prelude.{
  same_text, ℕ, ◌+◌, ◌-◌, true, false, not, none, some, List, [], ◌∷◌, Text, leb, if◌then◌else◌,
  any, ◌==◌,
}
use uber_coder.Transport.Rpc.State.{
  Client, Effect, Frame, Problem, RpcId, ServerRequest, ErrorCode, method_not_found, internal_error,
  overloaded, result, problem, Message, no_method, too_many_requests, internal, answers,
  calls_handler, get, delete, max_concurrent_server_request_handlers,
}

-- What a handler's call or its promise comes to.
pub data Settled : Type 0 where
  returns : Text → Settled
  throws_reply : Problem → Settled
  throws : Text → Settled

-- The frame of `settle`.
unfoldable pub answer_of : RpcId → Settled → Frame
answer_of id (returns v) = result id v
answer_of id (throws_reply p) = problem id p
answer_of id (throws message) =
    problem id (record { code = internal_error; message = internal message; data_value = none })

unfoldable pub refusal : ℕ → RpcId → ErrorCode → Message → Effect
refusal n id kind message =
    answers n (problem id (record { code = kind; message = message; data_value = none }))

-- `handleServerRequest` up to the handler's call; what the call comes to is `settle_handler`.
unfoldable pub handle_server_request : RpcId → Text → Client → Client × List Effect
handle_server_request id method c =
    let n = c.server_requests + 1 in
    if not (any (same_text method) c.request_handlers)
    then (record c { server_requests = n }, refusal n id method_not_found (no_method method) ∷ [])
    else if leb max_concurrent_server_request_handlers c.active_server_requests
    then (record c { server_requests = n }, refusal n id overloaded too_many_requests ∷ [])
    else (
      record c {
        server_requests = n;
        unanswered = (n, record { id = id; counted = true }) ∷ c.unanswered;
        active_server_requests = c.active_server_requests + 1;
      },
      calls_handler n method ∷ [],
    )

-- `release` of an open request.
unfoldable pub released : ServerRequest → ℕ → ℕ
released o active = if o.counted then active - 1 else active

abbrev pub uncount : ℕ → List (ℕ × ServerRequest) → List (ℕ × ServerRequest)
uncount n [] = []
uncount n ((k, o) ∷ os) = (k, if k == n then record o { counted = false } else o) ∷ uncount n os

-- `hold`
unfoldable pub hold : ℕ → Client → Client × List Effect
hold n c = elim (get n c.unanswered) [
  | none ↦ (c, [])
  | some o ↦ (
    record c {
      unanswered = uncount n c.unanswered;
      active_server_requests = released o c.active_server_requests;
    },
    [],
  )
]

-- `settle`: the handler's outcome is answered, and its place is free again.
unfoldable pub settle_handler : ℕ → Settled → Client → Client × List Effect
settle_handler n s c = elim (get n c.unanswered) [
  | none ↦ (c, [])
  | some o ↦ (
    record c {
      unanswered = delete n c.unanswered;
      active_server_requests = released o c.active_server_requests;
    },
    answers n (answer_of o.id s) ∷ [],
  )
]
