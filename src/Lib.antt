-- ===== src/Lib.antt =====
-- The core of a home server's metrics daemon: what it stores, rolls up, alerts on and answers.
--
-- The parts, and the files that model them:
--
--   * Models (src/models): the records of a snapshot. `f64` is the parameter `F` of Float, with the
--     operations that the program uses; no theorem needs a law of them.
--   * Config (src/config.rs): the configuration, Validate with `AppConfig::validate`, and Load with
--     `load` and the serde defaults. The crates `cron` and `toml` are the parameters `cron_accepts` and
--     `from_str`.
--   * Alerting (src/alerting): the rules' states and `AlertEngine::evaluate` in Engine, with mod.rs and
--     metrics.rs, and Notify with the webhook of notify.rs. An `Instant` is a number of nanoseconds.
--   * History (src/history_repo): Blob is blob.rs; Db/Rows has the columns of both tables, and the
--     record `Env` of what the crates `wincode` and `sqlx` and a `HashMap` give; Db/Statements has the
--     database as two lists of rows, and statements that may fail; Codec has the row parsers and
--     serializers of raw.rs, agg_store.rs and history_merge.rs; Raw, AggStore, Aggregation and Merge
--     have the operations of raw.rs, agg_store.rs, aggregation.rs and history_merge.rs; Schema has
--     the versions and migrations of schema.rs.
--   * AggregationWorker (src/aggregation_worker.rs, src/backfill.rs): one pass of the roll-up, which
--     runs alone in the backfill. Among has the same pass with the commits of the writer and the prunes
--     of the sampling worker between its statements. Service has the worker's loop, its VACUUM
--     scheduler and the statements of the other tasks as one state with a step relation: timers may
--     fire at any time, and what has happened is kept in fields of their own.
--   * Worker/HistoryWriter (src/worker/history_writer.rs): the task between the sampling worker and
--     the database, as events in any order.
--   * Worker/Sampler (src/worker/mod.rs): the tick that puts a snapshot together, evaluates the alerts
--     and sends it to the clients and to the writer. The collectors' results are arguments, `none` for
--     a failure. Worker/Pipeline has the tick, the bounded channel, the writer and the shutdown as one
--     state with a step relation, and Worker/Loop every branch of the loop with the refreshes of SMART
--     that it spawns, as events in any order.
--   * Smart (src/smart_repo): Parse is parse.rs over `serde_json`, which is the record `Json`, and the
--     rest mod.rs: the cache and its refresh, for any output of the command `smartctl`.
--   * Program (src/main.rs): the start, with its error paths, and what each task is given. The tables
--     are those that the `init` of Schema leaves, which purges a history of an unknown version.
--     Program/Shutdown has the end of `main` and the steps of its tasks, on the pipeline and the service
--     above. Each of these has its own view of the database, which steps of the others may change.
--   * Docker (src/docker_repo): Statistics is stats.rs, and Streams the refresh and the tasks of mod.rs
--     as steps. A HashMap is a list of entries (Prelude/Entries). What bollard answers is a record of
--     the fields that are read.
--   * Host (src/sysinfo_repo): Disk is linux/disk.rs, Linux is linux/mod.rs, and Collectors, Storage and
--     Network are mod.rs and collectors.rs. Files are a function from paths, and what the crate sysinfo
--     reads is an argument.
--   * Gpu (src/gpu_repo): sysfs.rs, and Nvidia with nvidia.rs, where NVML's answers are arguments.
--   * Routes/Ws (src/routes/ws.rs): the loops that push frames to a WebSocket client, as events in any
--     order, and the counter of clients.
--   * Routes/Http (src/routes/http.rs): the request for a history, which ends in Merge's `get_history`.
--   * Routes/App (src/routes): the table of routes, the short handlers, and the handlers of WebSockets.
--   * Prelude and Text: lists, integers, results and texts over the native natural numbers.
--   * Tests: runs of the definitions, and the theorems at concrete inputs.
--
-- An operation on the database takes a `World`: the tables, and a list that says of each statement to
-- come whether the engine refuses it. A theorem about all worlds is about all failures. A refused
-- statement changes nothing, and a transaction that does not commit is rolled back; this is what
-- SQLite documents. A clock reading is an argument, `none` if the clock stands before the epoch.
--
-- Integers are native natural numbers, and `i64` is ℤ with its wrap-around written out. Where a debug
-- build panics on overflow the release build's wrap-around is modelled. The loops of a pass run on
-- fuel, one more than the number of buckets up to the cutoff, and end within it when no bucket's end
-- leaves an `i64`.
--
-- That the parsers are exact inverses of the serializers is a hypothesis (`IsExactEnv`) of the
-- theorems that need it, as is that ORDER BY permutes and sorts (`IsOrdering`).
--
-- An aborted stream task may run on to its next yield, which the steps have. One refresh of the
-- containers runs at a time, and Docker lists a container once. Refreshes of SMART are taken in the
-- order in which they end.
--
-- Not modelled: logging; the types of columns, which the schema fixes, so that `try_get` succeeds; the
-- row ids of the tables, whose order is that of the lists; opening the database; how long a timer
-- takes to fire, or a frame to be sent; the upgrade of a connection, which is the crate yawc's; the
-- signals that end the server; and that the mutex of the SMART cache may be poisoned, since no code
-- panics while it holds it.
pub mod AggregationWorker
pub mod Alerting
pub mod Config
pub mod Docker
pub mod Float
pub mod Gpu
pub mod History
pub mod Host
pub mod Models
pub mod Prelude
pub mod Program
pub mod Routes
pub mod Smart
pub mod Tests
pub mod Text
pub mod Worker
