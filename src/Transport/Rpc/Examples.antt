-- ===== src/Transport/Rpc/Examples.antt =====
-- The theorems on JSON-RPC clients, applied to a run with an answer, a timeout, a request of the
-- server and the end of the channel.
use uber_coder.Prelude.{◌+◌, ◌≤◌, ◌≡◌, true, some, none, List, [], ◌∷◌, is_some}
use uber_coder.Transport.Rpc.State.{
  natural, new_client, exited, max_concurrent_server_request_handlers,
}
use uber_coder.Transport.Rpc.Requests.{answered}
use uber_coder.Transport.Rpc.Server.{returns}
use uber_coder.Transport.Rpc.Events.{
  Event, requests, registers, line, reply, valid, call, handler_settles, timeout, ended, run,
}
use uber_coder.Transport.Rpc.Counts.{sent, settled, entries_of}
use uber_coder.Transport.Rpc.Settled.Runs.{run-requests}
use uber_coder.Transport.Rpc.Answered.{answer_count, counted_requests, within}
use uber_coder.Transport.Rpc.Answered.Runs.{run-server_requests}

abbrev conversation : List Event
conversation =
    registers (97 ∷ [])
    ∷ requests (98 ∷ []) none none
    ∷ requests (99 ∷ []) none (some 500)
    ∷ line (reply (valid (natural 1)) (some (answered (49 ∷ []))))
    ∷ line (call (97 ∷ []) (valid (natural 7)) none)
    ∷ timeout 2
    ∷ handler_settles 1 (returns (50 ∷ []))
    ∷ requests (100 ∷ []) none none
    ∷ ended (record { code = some 0; signal = none; reason = exited; error = none }) []
    ∷ []

run-requests_example :
    let (c, fs) = run conversation (new_client 0 60000) in
    (sent 3 fs ≤ 1)
    × (settled 3 fs + entries_of 3 c.pending ≡ sent 3 fs)
    × (is_some c.finished ≡ true → settled 3 fs ≡ sent 3 fs)
run-requests_example = run-requests 0 60000 3 conversation

run-server_requests_example :
    let (c, fs) = run conversation (new_client 0 60000) in
    (answer_count 1 fs + entries_of 1 c.unanswered ≡ within 1 c.server_requests)
    × (counted_requests c.unanswered ≤ max_concurrent_server_request_handlers)
run-server_requests_example = run-server_requests 0 60000 1 conversation
