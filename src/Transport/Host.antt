-- ===== src/Transport/Host.antt =====
-- `SessionHost` of apps/server/src/providers/transport/session-host.ts as an event-driven machine.
-- `Host.State` has its fields, its messages and what it asks of the system, `Host.Actions` the steps
-- that every method uses, `Host.Child` and `Host.Clients` its methods, `Host.Events` the callbacks that
-- run them. `Host.Record` is the record file. `Steps`, `Proper`, `Runs`, `Quiet`, `Ending`, `Stops` and `Attach` have the proofs.
pub mod State
pub mod Actions
pub mod Child
pub mod Clients
pub mod Events
pub mod Steps
pub mod Record
pub mod Cleanup
pub mod Proper
pub mod Runs
pub mod Quiet
pub mod Ending
pub mod Stops
pub mod Greeting
pub mod Attach
mod Examples
