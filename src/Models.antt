-- ===== src/Models.antt =====
-- src/models: the data that the collectors produce and the repositories store.
mod Parts
mod System
pub use Parts.*
pub use System.*
