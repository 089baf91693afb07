-- ===== src/Lib.antt =====
-- NTP-Time-JSON-API: a service that takes the time from NTP servers, chooses among them, keeps a
-- monotonic time base between the syncs and serves it over HTTP and as an NTP server.
--
-- The parts and how they interact. A client (src/ntp/client.rs) asks an upstream server over UDP
-- with the packets of src/ntp/protocol.rs and makes a sample of the answer. The selection
-- (src/ntp/selection.rs) gates the results, intersects their uncertainty intervals and takes the
-- best that agrees with the weighted median; src/ntp/sync.rs stays with the current server where
-- it can. The statistics (src/ntp/stats.rs) count the failures of each server. A sync result
-- starts the time base anew (src/timebase.rs), which every reader asks, and over which an operator
-- can set a manual time. The UDP server (src/ntp/server.rs) answers NTP clients from the time
-- base, and src/http/state.rs says of which quality a time is. The loops of src/main.rs run the
-- rounds, set the metrics, and save the last good time, which src/persist.rs keeps on disk for the
-- next start. The handlers (src/http/handlers.rs) tell the time and whether the service is ready,
-- and those of src/http/handlers_admin.rs set and end the manual time, which a task ends at its
-- deadline, behind the token check of src/http/middleware.rs. src/http/websocket.rs streams the
-- time. src/config.rs reads the settings of all parts from the environment.
--
-- Files. Common and its children: tests, lists, results, machine words, integers, bits, and the
-- interface of floating-point numbers. Samples: the records that pass between the parts. Protocol:
-- packets and timestamps; Codec and Timestamps hold their theorems. TimeBase: the state of
-- src/timebase.rs as one record, its methods as functions from the reading of the clock and a
-- state to a state; Monotonic, Served, Override and Kept hold the theorems. Stats: ServerStats,
-- with Health and Offsets. Marzullo: marzullo_filter of src/ntp/selection.rs, its loop as `sweep`
-- over a record of the locals; Counting, Sweeping and Quorum lead to its theorem. Selection: the
-- records and gates of src/ntp/selection.rs; Consensus holds the median and the best, Select the
-- function `select`, and Kept, Gates, Accepted, Inside and Accounted the theorems. Sync:
-- sticky_select and query_with_client of src/ntp/sync.rs, with Sticky. State: compute_quality of
-- src/http/state.rs, with Serving. Counters: LockFreeMetrics of src/performance.rs, with Extremes.
-- Client: query_impl and validate_response, with Genuine and Accuracy. Quality: the dispersion of
-- a sync, of src/ntp/sync.rs. Server: handle_request and what it calls, with Replies, Handling and
-- Short; Server/Serving: the receive loop; Server/Limiter: UdpRateLimiter, with Entries, Allowing,
-- Isolation and Rate. Exchange: the client against the server. Config: the records of
-- src/config.rs and their validation, with Validated; Config/Variables and Environment: from_env,
-- with Loaded, and Config/Defaults. Metrics: the record of src/metrics.rs and, in Synced, what the
-- sync loop sets. TimeCache: the cache of src/performance.rs. Selection/Providers: provider_group.
-- Sync/Round: NtpSyncer and its round, with Answers, Outcome and Recorded. Responses: the errors
-- of src/errors.rs and what a client gets. Handlers: src/http/handlers.rs, with Verdicts and
-- Probes. Overrides and Admin: src/http/handlers_admin.rs, the requests with their checks and the
-- handlers with the tasks that wait; Overrides/Checked, Admin/Waiting, Invariant and Accepting
-- hold the theorems. Middleware: the check of the token in src/http/middleware.rs, with Guarded.
-- WebSocket: src/http/websocket.rs, with Streams. Persist: src/persist.rs, with Atomic. Main: the
-- turns of the loops of src/main.rs, with Turns, Keeping, Overriding and Serving, and Main/Probing
-- and Main/Restart. Tests: the theorems at concrete inputs.
--
-- Bounds. Machine integers are numbers with their wrap-around written out, as a release build
-- computes; a theorem names the range in which it holds. Loops are structural recursion over
-- lists, so none needs fuel; a compare-and-swap loop is one over its turns, and a theorem says how
-- many are enough. The system (clocks, sockets, name resolution) is an argument of each
-- definition. Floating-point numbers are a type with a total order and operations of which nothing
-- else is assumed; they stand for what the program computes from integers, of which nothing is
-- NaN. The settings that are read as floating-point numbers can be NaN, so they are of a type that
-- has it, and a comparison with it is false.
--
-- Not modelled: logging, the router, the count of HTTP requests, and what the client of a
-- WebSocket sends, which is only logged; the registration and encoding of the metrics; and what
-- binds the sockets and starts the tasks. The handlers /status and /performance only report; that
-- /status reads the quality is a step of Main/Serving. Calls that run at the same time are taken
-- one after the other, but for the compare-and-swap loops of Counters, which take turns with the
-- other threads, and for the task of an override that expires within a request that sets another
-- one. An instant is a count of nanoseconds, and each call that reads a clock has a reading of its
-- own.
pub mod Common
pub mod Protocol
pub mod Samples
pub mod TimeBase
pub mod Stats
pub mod Marzullo
pub mod Selection
pub mod Sync
pub mod State
pub mod Config
pub mod Metrics
pub mod TimeCache
pub mod Responses
pub mod Handlers
pub mod Overrides
pub mod Admin
pub mod Middleware
pub mod WebSocket
pub mod Persist
pub mod Main
pub mod Counters
pub mod Client
pub mod Quality
pub mod Server
pub mod Exchange
pub mod Tests
