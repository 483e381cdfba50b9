-- ===== src/Lib.antt =====
-- CodexWarden: a supervisor of the Codex app server, as a library of crates under src/.
--
-- The transport reads frames and hands them, numbered, to the authoritative ingress, which applies
-- each one to the reducer, records it in the event store and publishes it on the hub. The ingestor
-- finds threads, by signals and by reconciliation, and subscribes to them. The controller sends
-- actions and waits, through the reducer, for the events that show their effect. The supervisor
-- starts the shared daemon and the GUI and watches them. The core runs an operation over all parts:
-- supervision, the transport, a first reconciliation that opens the gate for actions, one more after
-- each new connection, and a shutdown at the end.
--
-- What models what:
-- * Protocol (src/protocol/src/lib.rs): Json is the interface of serde_json, a parameter with
--   documented laws; Frame is IncomingFrame and its classification; Event is SequencedEvent with
--   the reconstructed anchor.
-- * Reducer (src/reducer/src/lib.rs): State is the state under the lock and each call on it,
--   Waiters the loop that takes out the waiters that fire, Apply the reducer as a whole (new, apply,
--   register_waiter, events_since). Pruning, Wake, Replay, Turns and Calls prove.
-- * Store (src/store/src/lib.rs): Events is the contents with record_locked and remove_at, Prune the
--   loops of prune_locked and what calls them, Query both queries. Accounting, Bounds, Ledger,
--   Queries, Policy and Retention prove. The ledger is the abstract view: each event recorded is held, or
--   covered by the gap of its thread.
-- * Streaming (src/streaming/src/lib.rs): Hub is the hub and both streams, Recovery and
--   Repeats prove.
-- * Transport (src/transport/src/lib.rs): Request is RequestError and the reply of a request, Drive
--   is one connection, from what select! yields, Handshake is initialize, Reconnect connection_loop,
--   Handle TransportHandle. Settlement, Written, Numbering, Ranking and Outage prove. System puts the
--   handle's callers and the connections' task together, move by move; its child modules prove.
-- * Transport.Mock (src/transport/src/mock.rs): Mock is the state of the mock app server, what the
--   tests set and its answers, Serve the loop of one of its connections. Exchange and Greeting prove
--   what a client and the server come to together.
-- * Control (src/control/src/lib.rs): Actions is interrupt, steer and start with
--   send_not_written_safe; Outcomes, Evidence and Completion prove. Locks is lock_for with the
--   actions that wait and run; Exclusion, Picking and Order prove.
-- * Ingest (src/ingest/src/lib.rs): Ingress is AuthoritativeIngress; World, Discover and Reconcile
--   are ThreadIngestor. Fanout, Subscriptions, Scanning and Retries prove.
-- * Supervisor (src/supervisor/src/lib.rs): Listing reads the texts of ps and lsof, Ops is the trait
--   ProcessOps with the calls so far, Supervise is Supervisor. Rules is a small logic of what a step
--   ensures; Care says which calls are careful; Conduct, Success, Watch, Clock and Finish prove.
-- * Core (src/core/src/lib.rs): Handle is Config, Error and Handle with its shutdown, Run is
--   CodexControl::run with the reconnect task, Ingress its ingress task, Service what a consumer asks
--   of the handle. Lifetime, Operation and Endings prove, and Delivery and Answers follow the events from the
--   socket to a replay and to a query.
-- * Prelude holds shared types and lemmas, Samples and the modules named Tests concrete examples.
--
-- State is passed explicitly. A call that holds a lock for its whole body is one step. What other
-- tasks do at an await is part of the input: a list of exchanges with the daemon, each with the
-- events or writes of other tasks before the reply. A used-up list stands for a closed transport.
-- Integers of 64 bits wrap or saturate as the source writes it; clocks are arguments. A hash map is
-- an association list, and its iteration order that of the list: the search of the store for a thread
-- over its limit takes the first such thread in it. The tokio channel of a topic is a parameter with
-- documented behaviour: whether a channel of a capacity is made, and what a receiver at a place gets.
-- When the connections' task has ended, the commands left in its queue stay there in the model; in
-- the source they are dropped with the queue's receiver, and each caller gets Closed.
--
-- Loops on fuel: the removal loops of the store run with as many rounds as there are events, or
-- one more, since each round but the last removes one; the loop over the waiters with their number,
-- since each round takes one out or passes it; the retry loop of a discovery with one round more
-- than its retry limit; the supervisor's waits with two rounds more than the sleeps of 100 ms that
-- their timeout holds, since each round but the last sleeps. The rounds of a connection, of the
-- reconnect loop and of the mock server, and the moves of callers and task, are a list of what they
-- meet.
--
-- Not modelled: connect and message_json, whose results are inputs, and the transport's broadcast
-- channel; the bound of the queue of commands, which makes a caller wait; RealProcessOps, which runs
-- commands; in the core crate init_tracing and the monitor's task inside run; the listener of the mock
-- app server; the types that a build script generates; serde_json, tokio and the file system.
mod Prelude
pub mod Samples
pub mod Protocol
pub mod Reducer
pub mod Store
pub mod Streaming
pub mod Transport
pub mod Control
pub mod Ingest
pub mod Supervisor
pub mod Core
