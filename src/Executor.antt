-- ===== src/Executor.antt =====
-- internal/executor: fetching jobs and completing them.
pub mod Producer
pub mod Pool
pub mod Completer
pub mod Loops
pub mod Attempts
