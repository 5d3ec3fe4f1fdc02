-- ===== src/Worker.antt =====
-- src/worker: the loop that samples, and the task that persists the snapshots.
pub mod HistoryWriter
pub mod Sampler
pub mod Pipeline
pub mod Loop
