-- ===== src/Lib.antt =====
-- A verification library for onWatch, the daemon that polls the usage quotas of AI providers, keeps
-- them in SQLite and shows them on a dashboard. It models the parts of the Go program that decide:
-- the detection of quota resets and the reset cycles, the login and request limiters, the
-- session tokens of the dashboard, the usage sessions, and the delivery of a device's events to
-- the central server, at both ends.
--
-- The parts, and the files that model them:
--   Base      Boolean tests, lists measured by native numbers, and Go maps as association lists.
--   Float     float64: the operations as an interface, and IEEE 754 facts as hypotheses.
--   Cycle     the tables of reset cycles (internal/store/store.go: CreateCycle, CloseCycle,
--             UpdateCycle, QueryActiveCycle). Cycle/Anthropic and Cycle/Codex are the calls of
--             internal/store/anthropic_store.go and internal/store/codex_store.go. Cycle/Laws,
--             Cycle/Invariant, Cycle/Active and Cycle/Others say what each call does to the open and
--             the closed rows.
--   Tracker   the trackers that turn snapshots into cycles: Tracker/Synthetic
--             (internal/tracker/tracker.go), Tracker/Anthropic (anthropic_tracker.go) and
--             Tracker/Codex (codex_tracker.go), each with `Process` as `process` and `processQuota`
--             as `process_quota`. Tracker/Action is the monad of their methods, Tracker/Rules what
--             their proofs share.
--   Auth      Auth/LoginLimiter is `LoginRateLimiter` and Auth/Tokens is `SessionStore`, both of
--             internal/web/middleware.go, the latter with the table `auth_tokens` of
--             internal/store/store.go. Auth/RateLimiter is `RateLimiter` of
--             internal/web/security.go.
--   Agent     what the pollers share: Agent/Sessions is `SessionManager` of
--             internal/agent/session_manager.go with the table `sessions` of
--             internal/store/store.go.
--   Ingest    what a collector and the server exchange, of internal/ingest/types.go:
--             Ingest/Decoding is `DecodeBatch` after its JSON decoder, Ingest/Desired is
--             `ValidateDesiredConfig`, Ingest/Validation is `Event.Validate`.
--   Collector the collector of a device: Collector/Spool is `Spool` of
--             internal/collector/spool.go, over the lines of Collector/Lines. Collector/Recovery is
--             its `recoverPartialTails` and Collector/Status its `Status`. Collector/Upload is
--             `uploadOnce` and Collector/Heartbeat is `heartbeatOnce` of
--             internal/collector/runtime.go, with `retryDelay` of internal/collector/client.go.
--             Collector/Spool/Cursors says what is queued: the records past the cursors, in the
--             order of the files.
--   Central   the central tables of internal/store/central.go (Central/Tables, with a monad of
--             statements that may fail): Central/Storing is `StoreIngestBatch` with
--             `storeIngestEvent` and `enrichUsageEvent`, Central/Payload the digests of
--             internal/ingest/types.go and `jsonIsEnrichment`, Central/Devices the calls on devices and
--             tokens, Central/Owners those on the owners of accounts, Central/Calls any of these
--             calls in turn, which keep what Central/Stable lists.
--   Server    the handlers of internal/ingestserver/server.go: `batches`, and `heartbeat` in
--             Server/Heartbeat. Server/Delivered joins a collector to it by `post` of internal/collector/client.go.
--   Tests     the theorems at concrete inputs.
--
-- How they interact: the poller of a provider hands a snapshot to its tracker; the tracker reads the
-- open cycle of each quota from the store, decides whether the quota was reset, closes and creates
-- cycles through the store, and calls `onReset`. The poller also reports the values to its session
-- manager, which opens, counts and closes usage sessions. The dashboard asks the login limiter
-- before it checks a password, and the session store before it serves a page. A collector appends
-- events to its spool and uploads them in batches; a batch is acknowledged, which moves the cursors,
-- once the server has answered for each of its events. The ingest server stores a batch in one
-- transaction of the central tables: a receipt by device and event identifier for each event that is
-- stored, so that a batch that is sent again is answered from its receipts, and quota snapshots only
-- from the device that owns the account.
--
-- How the code is translated: a method takes its state, the clock readings it makes and the values
-- it generates as arguments, and returns its result with the new state. Times are nanoseconds as
-- natural numbers. A database is its table together with the outcomes of the calls to come, so that
-- each call may fail; a failed method keeps what was written before. The order of the rows is that
-- of their insertion. float64 is any type with the operations of `Float64`; theorems that need more
-- take `IsIeee`. bcrypt and SHA-256 are the parameter `Crypto`, JSON is `Codec` and `Payloads`, the
-- text functions of Go are `GoText`, and the server that a collector talks to is a function of what
-- is sent, by Server/Delivered that of the ingest server. What the central tables need of other
-- code, as the parser of usage lines, the telemetry and the mirror tables, is `Externals`. Writes to
-- the disk are outcomes to come, like the calls of a database; a write may stop after some of its
-- bytes. Reading and listing files succeeds. Go visits a map in no fixed order; the models visit the
-- entries in the order of the list. No model needs fuel: each loop runs over a list.
--
-- Not modelled: logging and error texts; locks and atomics, since each method runs to its end before
-- the next one begins; the other trackers and their tables; the HTTP clients, the parsers of the
-- providers' answers, the pollers, the mirror tables, the telemetry, the lists and the metrics of the
-- ingest server, the collection and the quota polls of the collector, the notifications, the updater
-- and the web handlers; the import of internal/store/transfer.go and
-- `ConfigureAntigravityBinding` of internal/store/central_binding.go, which write the central tables
-- too; everything that is not Go.
pub mod Base
pub mod Float
pub mod Auth
pub mod Cycle
pub mod Tracker
pub mod Agent
pub mod Ingest
pub mod Collector
pub mod Central
pub mod Server
pub mod Tests
