-- ===== src/Lib.antt =====
-- A model of the outbound mail daemon (Go), and proofs about it.
--
-- Mail comes in over SMTP (internal/smtpserver) from clients that internal/auth knows and that
-- internal/ratelimit lets pass, is written to a spool of stage directories
-- (internal/spool). Deliveries are rows of two SQLite tables (internal/db/schema.go, internal/queue);
-- no code of the repository adds an accepted message to them yet. Workers (internal/delivery) poll
-- the table of deliveries, read the message from the spool, look up the MX host, hand the message
-- over and write the outcome back: delivered, to be retried at a time of the retry schedule, or
-- failed for good. They report to Prometheus (internal/metrics) and to a buffered
-- event client (internal/clickhouse).
--
-- Prelude         what the modules share: Go strings as byte lists, tests, lists, integers
-- Metrics         internal/metrics/metrics.go: the recorders as the calls that they make;
--                 Metrics.Registration: the collectors that New registers
-- Logger          internal/logger/logger.go: the levels, the derived loggers and the lines they write
-- ClickHouse      internal/clickhouse/client.go: LogEvent, flush and flushWorker as steps, one for
--                 each section under the mutex and each round of the loop of flush;
--                 ClickHouse.Lifecycle: New and Close
-- Schema, Queue   internal/db/schema.go and internal/queue/queue.go: a table is the list of its
--                 rows, a statement a function on it
-- Files, Spool    internal/spool/spool.go: a file system of (stage, name) paths; New, Write, Read,
--                 Exists, Move with copyFile, Delete, List, Count and Cleanup, and the worker
--                 that repeats it (Spool.Cleaner)
-- Database        internal/db/db.go: how the handle is opened, and closed where that fails
-- Delivery        internal/delivery/worker.go: processBatch, processDelivery, lookupMX, deliver and
--                 the updates of a row (lookupMX and deliver in Remote); Delivery.Loop: Start, Stop
--                 and workerLoop; Delivery.Workers: several workers that take turns
-- Parser          internal/parser/parser.go: the metadata of a message and its address lists
-- Config          internal/config/config.go: the settings, their defaults, the environment, Load and
--                 Validate
-- Certificates    internal/tlsmgr/manager.go: which certificate a server name gets, and what
--                 happens to a manager: reloads, Close (Certificates.Watching)
-- Daemon          cmd/outbound/main.go: how the configuration reaches the components, the order of
--                 the start, how each listener is served, and the shutdown
-- Ratelimit       internal/ratelimit/ratelimit.go: the checks in Redis with their local fallback;
--                 Ratelimit.Connections: the counter under concurrent sessions;
--                 Ratelimit.Cleaner: the worker that cleans up the local buckets
-- Auth            internal/auth: users and passwords in Redis, the allowlist of addresses
-- Dedup           internal/dedup/dedup.go: which messages repeat an earlier one
-- Session         internal/smtpserver/session.go: NewSession, the commands of a session and the SASL
--                 server, over the limiter, the spool and the metrics that the sessions share;
--                 Session.Server: internal/smtpserver/backend.go
-- Tests           the theorems at concrete inputs
--
-- State is passed explicitly. What the code does not decide is an argument: the clock, uuid values,
-- which system call or statement fails, the order of rows with equal keys under ORDER BY, and the
-- answers of DNS and of remote servers, also whether a server has taken a message where the reply
-- to its end is lost. Times and durations are in nanoseconds, times in the database in seconds, as
-- in the source. Counters and times are natural numbers without a bound, since they stay far below
-- 2 ^ 63; configured integers, which may be negative, are integers, and MaxMessageSize + 1, which
-- may exceed an int64, wraps; only the number of delivery workers, the delays of their schedule and
-- the window of the deduplicator are taken as not negative. Redis, zerolog, the JSON codec, the
-- YAML decoder, net/mail, the address parsers and the fields of certificates are parameters, with
-- what the theorems need of them as hypotheses. Server names and keys are ASCII. A step of the
-- interleaved models is what the code does under one lock, or one poll, processing or new delivery,
-- which touches the table by one statement. Not modelled are the connections to Redis and the
-- database that are opened at the start, and how long a goroutine or Close sleeps.
-- No definition needs fuel: every loop of the code runs over a list.
pub mod Auth
pub mod Certificates
pub mod ClickHouse
pub mod Config
pub mod Daemon
pub mod Database
pub mod Dedup
pub mod Delivery
pub mod Files
pub mod Logger
pub mod Metrics
pub mod Parser
pub mod Prelude
pub mod Queue
pub mod Ratelimit
pub mod Schema
pub mod Session
pub mod Spool
pub mod Tests
