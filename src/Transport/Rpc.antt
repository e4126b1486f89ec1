-- ===== src/Transport/Rpc.antt =====
-- `JsonRpcClient` of apps/server/src/providers/transport/codex/jsonrpc.ts as an event-driven machine.
-- `Rpc.State` has its fields and messages, `Rpc.Requests` the table of requests, `Rpc.Server` the
-- requests that the server makes, `Rpc.Events` the callbacks that drive the client.
pub mod State
pub mod Requests
pub mod Server
pub mod Events
pub mod Counts
pub mod Settled
pub mod Answered
mod Examples
