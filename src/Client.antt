-- ===== src/Client.antt =====
-- The client package of the repository's root: enqueue.go, scheduler.go and client.go.
pub mod Enqueue
pub mod Idempotence
pub mod Jobs
pub mod Logs
pub mod Reads
pub mod Schedules
pub mod Lifecycle
pub mod Running
pub mod Calls
pub mod Register
pub mod LastStep
pub mod Lookup
pub mod Outputs
pub mod Start
pub mod Started
pub mod Rerun
pub mod Reset
