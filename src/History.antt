-- ===== src/History.antt =====
-- src/history_repo: the SQLite history of raw and aggregated snapshots.
pub mod Blob
pub mod Db
pub mod Codec
pub mod Aggregation
pub mod Raw
pub mod AggStore
pub mod Merge
pub mod Schema
