-- ===== src/Store.antt =====
-- The database that internal/db/db.go works on: the rows of each table, and one SQL statement as a
-- function on them. Child modules hold the statements, by table.
mod Rows
pub mod Jobs
pub mod Workers
pub mod Queues
pub mod Scripts
pub mod Runs
pub mod Logs
pub mod Reads
mod Statement
pub use Rows.*
pub use Statement.*
