-- ===== src/Lib.antt =====
-- SAI AUROSY: a control plane for a fleet of robots. An operator or a task sends a robot commands; a
-- safety test decides which of them reach the command bus; tasks run scenarios step by step on one robot
-- at a time, with zones that one robot holds at a time; an edge agent relays commands at a site without
-- a direct link; webhooks tell other systems what happened.
--
-- Each file is about the Go code that its first comment names, and its functions have the names of the
-- Go functions, in lower case with underscores. A branch of a long Go function that is a function of its
-- own here is named after what it does.
--
-- Prelude, Dict, Selected: shared helpers. Dict is an association list for a Go map, which keeps an entry's
--   place when it is written again; theorems do not depend on the order.
-- Hal: pkg/hal, robots, commands and the capability test.
-- Codec: what the code takes from encoding/json and float64. Every decoder is a parameter: a
--   theorem holds for each way of decoding. Codec/Decimal is one for the tests.
-- Telemetry: pkg/telemetry/bus.go. The bus is the list of the published commands; whether the NATS client
--   accepts a publication is a parameter.
-- Arbiter: pkg/control-plane/arbiter, the safety test (Safety, Permitted) and the routing of commands with
--   their audit entries (Routing).
-- Edge: pkg/edge, the edge's copy of the safety test (Safety, Mirror) and one heartbeat (Sync).
-- Coordinator: pkg/control-plane/coordinator, the zone locks. Locks has the lemmas on each operation and
--   Exclusion relates a sequence of operations to a table of owners. A method runs under the mutex and is
--   one step, so interleaved clients are a sequence of steps.
-- Robot: internal/robot, the state machine of a robot and the state manager.
-- Tasks: pkg/control-plane/tasks, the in-memory store (Store) and the task runner. The runner's state
--   is World: the tasks, the zones, the commands on the bus and the calls of its callbacks. Steps is
--   the loop over the steps of a scenario, Runner an iteration around it. The passing of time, the
--   cancellations by the API and the end of the context come in as a list of polls, one for each look
--   that the code takes; a list that is too short leaves the run unfinished, and Steps/Ends says how many
--   polls are enough: the wait loop sleeps half a second between two polls, so a step of d seconds has
--   at most 2 d + 1.
-- Engine: internal/robot, the navigation executor (Navigation), the task executor (Executor) and the
--   execution engine (Lifecycle). What the robot reports and what the clock does come in as a list of
--   signals. The runner's engine is a parameter of Tasks/Runner.
-- Edges: pkg/control-plane/edges, the queue of commands that wait for an edge.
-- Idempotency: pkg/control-plane/commands, the in-memory store of idempotency keys.
-- Api: pkg/control-plane/api/server.go, the handler by which a command enters the system. Keys and Repeats
--   are about its idempotency keys, with the clean-up that cmd/control-plane/main.go runs, Route
--   and Delivered about the commands that it accepts.
-- Webhooks: pkg/control-plane/webhooks, the circuit breaker, the delivery with its retries, the
--   stores in memory and the dispatcher. Other deliveries to the same URL may act on the breaker between any
--   two of its uses. The HTTP exchange is a parameter.
--
-- Registry, Tenants, Audit, Events: pkg/control-plane, the in-memory stores of robots, tenants and audit
--   entries, and the broadcaster of events.
-- Orchestration: pkg/control-plane/orchestration. Runner is the start of a workflow: Started has what a
--   round creates, Ended how the rounds end, Outcome what is returned.
-- Mall: internal/mall, maps and routes. Graph is Dijkstra's algorithm: Invariant holds between its turns,
--   Better, Relax and Popped keep it, Turns has the loop, Route reads off the path. Bounded counts the
--   items and unseen edges, which one turn lessens, so that the number of edges and 2 is enough fuel; the
--   path has at most one node more than were seen. A distance is a type with an order and a sum.
--   Edges and Rows say what the graph has of a map, Routes/Walks is about walks over the map itself.
-- Streaming: pkg/control-plane/streaming, the ring of telemetry events. Recent says what it holds, Since
--   what a client gets.
-- SimRobot: internal/simrobot, the simulated robot, its commands, failures and ticks.
-- Auth: pkg/control-plane/auth, the middlewares for credentials and roles.
-- Conversations: pkg/control-plane/conversations, the answers to intents: store, catalog and templates.
-- Oauth: pkg/control-plane/oauth, the endpoints for codes and tokens. Scoped says what a code or a token may
--   carry, Granted and Kept are about the requests, SingleUse about the exchange of a code. A table of its
--   SQL stores is the list of its rows, and each query may fail.
-- Scenarios: pkg/control-plane/scenarios, the in-memory store and the catalog over it with its defaults.
-- Validation: internal/validation, the assertions of a validation scenario, their checks and, in Evaluate,
--   their evaluation. The order of floats and the functions of the package strings are a parameter.
--
-- A time is a number of milliseconds since Go's zero time. Not modelled: the other SQL stores, the
-- HTTP handlers other than those named, OpenAPI, logs, traces and metrics, the cognitive providers, the mall
-- assistant, the runner of validation scenarios, the wiring in cmd otherwise, and the code in other languages.
pub mod Prelude
pub mod Dict
pub mod Hal
pub mod Codec
pub mod Telemetry
pub mod Arbiter
pub mod Edge
pub mod Edges
pub mod Coordinator
pub mod Robot
pub mod Tasks
pub mod Engine
pub mod Webhooks
pub mod Idempotency
pub mod Api
pub mod Registry
pub mod Orchestration
pub mod Streaming
pub mod Events
pub mod Mall
pub mod SimRobot
pub mod Auth
pub mod Audit
pub mod Tenants
pub mod Validation
pub mod Conversations
pub mod Selected
pub mod Oauth
pub mod Scenarios
