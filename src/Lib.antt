-- ===== src/Lib.antt =====
-- MaDRPC: a verification of the orchestrator with its server, of the client's calls, the node's server,
-- the metrics, the rate limiter and the API keys.
--
-- MaDRPC runs JavaScript functions on nodes behind an orchestrator. A client posts a JSON-RPC call
-- over HTTP; the orchestrator picks a node by round robin among those in rotation whose circuit
-- breaker is not open, forwards the call with retries, and keeps the rotation current by rounds of
-- health checks. A user may take nodes out of the rotation, and nodes may register themselves.
--
-- The files and the code:
--   Prelude   what the others share: tests on numbers, lists by index and without a value, an
--             association list for `HashMap` (HashMap), equality of texts (Text), and the wrap-around
--             of unsigned words (Word).
--   Float     `f64` and `i32`: the operations that the program calls, as a record that the theorems
--             take as an argument, and the documented facts about them that some theorems need.
--   Node      crates/madrpc-orchestrator/src/node.rs: the fields of a node, the circuit breaker's
--             states and configuration, and its timeouts (Timeout).
--   LoadBalancer
--             crates/madrpc-orchestrator/src/load_balancer.rs: the map of nodes, the list of enabled
--             addresses, the index, and each public operation by its name. Health is the result of a
--             check; Invariant is what the fields have in common; Loop, Selection and RoundRobin are
--             about `next_node`; Timeouts about `check_circuit_timeouts`; History runs any sequence
--             of calls; Manual and Circuit follow one node through such calls; Roster is
--             what the balancer promises of all of them.
--   HealthChecker
--             crates/madrpc-orchestrator/src/health_checker.rs: a round of checks and the loop of
--             rounds. Pointwise sees a round from one node; Rounds is about several rounds,
--             and Recovery about a node that comes back.
--   Protocol  crates/madrpc-common/src/protocol: the errors (error.rs) and the messages (jsonrpc.rs).
--   Client    crates/madrpc-client/src/client.rs: one attempt, how an answer becomes an error
--             (Errors), the retry configuration and its delays (Config), and the retry loop (Retries).
--   Builtin   crates/madrpc-common/src/protocol/builtin.rs: what the built-in methods answer, and `Json`, the
--             interface of serde_json that turns requests and answers into JSON values and back.
--   Transport crates/madrpc-common/src/transport/http.rs: bodies and responses.
--   Requests  crates/madrpc-common/src/protocol: the messages of the older protocol (requests.rs,
--             responses.rs); OlderProtocol in Orchestrator and in Server handles them.
--   Orchestrator
--             crates/madrpc-orchestrator/src/orchestrator.rs: the retry loop that forwards a call
--             (Forward), and the registration of a node (Registration). Router is http_router.rs, with
--             the built-in methods and what a forwarded call leaves in the metrics (Answers); HttpServer
--             is http_server.rs, with the checks that a request passes (Gate).
--   Server    crates/madrpc-server/src: the limits (resource_limits.rs), the calls of a node (node.rs), its
--             router (http_router.rs) and its server (http_server.rs). Registration is the node's loop
--             that registers it; Answers is about the router and Gate about the server; Construction makes
--             a node of its script; Script is a call from the script to the metrics; Relay follows a call through client, orchestrator and
--             node.
--   Runtime   crates/madrpc-server/src/runtime: the values of the engine and of JSON. Conversions is
--             conversions.rs, with the maps of JSON (Maps), what it relies on of the engine (Laws), the
--             properties of an object (Entries), the way there and back (Roundtrip) and the values that
--             can be read (Readable). Jobs is job_executor.rs: the borrow of the generic jobs (Borrows), what
--             runs and what is left (Accounts, Counts), and how the loop ends (Ending, Termination)
--             or goes on (Waiting). Context is context.rs, with the wait for a promise (Waiting); Bindings is bindings.rs.
--   CommandLine
--             crates/madrpc-cli/src: the commands (main.rs), with a node that starts (Starting), and the
--             monitor (top.rs, in Top) with what it draws (Drawing).
--   Metrics   crates/madrpc-metrics/src: the monotonic clock (Clock), the latency histogram (Histogram)
--             with the bin of a latency (Bins), the recording (Counts) and the search for an estimate
--             (Percentile); the registry (Registry) with its cleanup (Sorting, Removal, Eviction), the
--             counters (Counters), what one report adds to them (Accounts) and sequences of reports
--             (Events); Recording is what a call does to the registry, the snapshots, and collector.rs.
--   RateLimit crates/madrpc-common/src/rate_limit.rs: the buckets of tokens by address. Isolation is
--             about what a check leaves alone, Burst about requests at one instant.
--   Auth      crates/madrpc-common/src/auth.rs: the API key, and the comparison of keys (Equality).
--   Examples  the theorems at concrete values, and some runs.
--
-- How the code is modelled. A method that takes `&mut self` is a function to the new state. A panic is
-- `none`, and `panicked` in the loop over the jobs. Words wrap around, as in a release build. A
-- `HashMap` is an association list, and what the iteration order could change is not observed. Clocks
-- are arguments, in nanoseconds; one `now` stands for the clocks that one operation reads. Random
-- numbers, the answers of nodes and of HTTP, and what other tasks do to the balancer while a request
-- waits are arguments too. A whole round of health checks is taken as one step: no other task writes to
-- the balancer meanwhile. So is an operation of the registry, and one reading of the system's time
-- stands for those that it makes. A JSON value is a type `V`, of which the servers know no more than
-- `Json` says; a response is the message that is serialized, with its status and the header
-- Retry-After.
--
-- Loops. `next_node` runs over the number of enabled nodes, as its `for` does; the retry loops run
-- over the attempts that their configurations allow, so none of them needs more fuel than the code
-- counts. The endless loop of the health checker is its finite prefixes, one round for each time.
-- The loop that registers a node runs on fuel, of which 5 rounds are enough.
--
-- JavaScript. The engine is a parameter: `Engine` is what the conversions use of it, `Realm` what a call
-- does, and its state is passed on. A value is the finite tree that a reference stands for: an object that
-- contains itself, on which the conversion does not end, is none. A job is the tree of the jobs that it
-- enqueues, and which future completes at a poll is an argument; the loop over the jobs and the wait for
-- a promise run on fuel, of which what is enough is proved. In the model of a call, a script's function
-- and a run of the jobs always return; whether the loop over the jobs does, or panics, is proved apart.
--
-- Not modelled: the choice of a tokio runtime for a run of the jobs; the parser of the command line (argh)
-- with its defaults, and the widgets and the terminal of the monitor; listening and accepting
-- connections, which hyper, axum and tokio do; the HTTP clients, which hyper builds; and operations on the
-- metrics that interleave.
pub mod Prelude
pub mod Float
pub mod Node
pub mod LoadBalancer
pub mod HealthChecker
pub mod Protocol
pub mod Client
pub mod Orchestrator
pub mod Metrics
pub mod RateLimit
pub mod Auth
pub mod Builtin
pub mod Transport
pub mod Requests
pub mod Runtime
pub mod CommandLine
pub mod Server
pub mod Examples
