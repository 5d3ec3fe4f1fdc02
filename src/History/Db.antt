-- ===== src/History/Db.antt =====
-- The database as src/history_repo sees it: two tables, a row of system information, and
-- statements that the engine may refuse. A table is the list of its rows by ascending id.
mod Rows
mod Statements
pub mod Post
pub mod Still
unfoldable pub use Rows.*
unfoldable pub use Statements.*
