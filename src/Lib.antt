-- ===== src/Lib.antt =====
-- A verification library for Agent Console, a server that runs coding agents (Codex, Claude, Grok,
-- Vibe) in processes of their own, and a web client for it. Paths are from the repository's root.
--
-- Parts. Each provider process is the child of a session host
-- (apps/server/src/providers/transport/session-host.ts), a small program that outlives the server:
-- it splits the child's output into lines, keeps the latest of them in a replay buffer, and serves
-- one client at a time on a Unix socket, so that a server that reconnects with the number of the
-- last line it saw gets the rest. The server side queues what a person sends, watches the runs of
-- each session and recovers the ones that fail, and merges live output with the provider's
-- transcript.
--
-- Prelude: shared names; Boolean tests on numbers, lists measured by native numbers.
--
-- Transport.Lines: `LineSplitter`. A chunk is a list of bytes, a call returns the events that the
-- source reports by its callbacks. `push_loop` is the loop of `push`, with fuel for one round per
-- byte of the chunk, which is enough because each round takes a byte at least. UTF-8 decoding is a
-- parameter. Lines.Chunks has the automaton that reads a byte at a time, Lines.Streams the results.
--
-- Transport.Replay: `ReplayBuffer`. Replay.History relates a buffer to the whole history of the
-- child's lines, Replay.Bounds has its limits. The length of a line in bytes is a parameter.
--
-- Transport.Host: `SessionHost`. Host.State has the fields, the messages and the effects; a method
-- is an action, a function from the state to the new state and the effects in order (Host.Actions);
-- the methods are in Host.Child and Host.Clients, the callbacks that Node runs in Host.Events,
-- where `run` is any sequence of them. What Node and the kernel answer while a callback runs is in
-- `Env`. Where the source awaits, the model has a phase, and the code behind the wait is a callback
-- of its own. How long a timer takes is not kept, only that it fires. Host.Record is the record
-- file and `removeRecord`, and `callback_effects` what `stop` leaves to run later. Host.Steps,
-- Cleanup, Proper and Runs have the invariant of counters and flags; Quiet, Ending and Stops the
-- way to the end; Greeting and Attach the replay to a client.
--
-- Transport.Rpc: `JsonRpcClient` of apps/server/src/providers/transport/codex/jsonrpc.ts, the
-- client that a provider's session uses on top of the lines. Rpc.State has its fields, Rpc.Requests
-- what becomes of a request, Rpc.Server the requests that the server makes, Rpc.Events the calls
-- and callbacks, of which `run` is any sequence. A JSON value is its text. Ids come from one
-- counter; other clients of the same counter are the event `takes_id`. A handler's promise is the
-- event that settles it, at once or later. Rpc.Counts, Rpc.Settled and Rpc.Answered count what a
-- run does about one request.
--
-- Sessions.Queue: `InputQueue` of apps/server/src/sessions/input-queue.ts, the journal of what a
-- person sent; the rows of its table are three maps. Queue.Journal relates its list to its records.
--
-- Sessions.Timeline: apps/server/src/sessions/timeline-merge.ts, how a transcript and live messages
-- become one timeline. Timeline.Index is the index by role and time, Timeline.Merge the rest; what
-- regular expressions and the locale do to a text is the parameter `Reading`, and a time is a
-- natural number of milliseconds.
--
-- Transport.Channel: `EventChannel` of apps/server/src/providers/transport/claude/event-channel.ts,
-- the queue between a session and the one consumer of its events. Channel.Order follows the events,
-- Channel.Promises the calls that they are given to.
--
-- Sessions.Working: apps/server/src/sessions/working-state.ts, the working flag of a session's row
-- and the timer of its idle window, over the fields that they use.
--
-- Sessions.Monitor: `StructuredRunMonitor` of
-- apps/server/src/sessions/structured/structured-run-monitor.ts, the state of a session's run.
--
-- Transport.Startup: the arguments, the environment and the record of an earlier host, which a
-- session host reads at its start (apps/server/src/providers/transport/session-host.ts).
-- Startup.Environment compares names as texts of code units, and has the clearing of the
-- environment at the start of `main`.
--
-- Sessions.Recovery: `RunRecovery` of apps/server/src/sessions/run-recovery.ts for one session.
-- Whatever it awaits or is called with is an event, and the session's lock admits one job at a
-- time; times are the milliseconds of their ISO texts, and `stop` is `stopWatching` for each
-- session. Recovery.Refresh, Retry and Calls have the methods, Recovery.Steps the events, of which
-- `run` is any sequence; Replays counts submissions against reported failures, and Stops is about
-- `cancel` and what is saved before a submission.
--
-- Library.Cache: apps/server/src/lib/provider-conversation-cache.ts, the cache of parsed
-- transcripts. What `fs.stat` and a parser answer comes with the events, and a parse is known by
-- its generation. Cache.Loads has the reads and the ends of parses; Sizes and Runs are about the
-- bytes and the cap, Fresh, Asked and Served about what is served and to whom, Newest about parses
-- that end in another order.
--
-- Security.Cookies and Security.Auth: apps/server/src/security/password.ts and auth-service.ts with
-- the table of apps/server/src/db/repos/auth-sessions.ts. The HMAC is a parameter, of which it is
-- used that its base64url text has no dot; a new id and token come with the request. Auth.Service
-- has the methods, Trust who is taken, Logins a login and its logout.
--
-- Coordination.Continuation: apps/server/src/coordination/continuation.ts, the permission of an
-- assignment to go on unattended and its three attempts, with the rounds of
-- apps/server/src/sessions/session-manager.ts that spend them.
--
-- Sessions.Adoption: apps/server/src/sessions/pending-adoption.ts, with the rows of the tables of
-- apps/server/src/db/repos that it reads and writes; a transaction is one step. Adoption.Visibility
-- is which conversations the index keeps, of apps/server/src/lib/conversation-visibility.ts.
--
-- Not modelled: file and socket calls, the start of the child, logging, and the parts of the server
-- that are named in no module here.
pub mod Prelude
pub mod Transport
pub mod Sessions
pub mod Library
pub mod Security
pub mod Coordination
