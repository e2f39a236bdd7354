-- ===== src/Postgres.antt =====
-- repository/postgres/repository.go: the repository on PostgreSQL. Each method is a function on the
-- table; a call of `withTx` is one step.
pub mod Lease
pub mod Claim
pub mod Enqueue
pub mod Admin
pub mod Dlq
pub mod Query
pub mod Steps
pub mod Turns
pub mod Skips
pub mod Inserts
pub mod Runs
pub mod Fencing
pub mod Choice
pub mod Earliest
pub mod Draining
pub mod Rounds
pub mod Stale
pub mod Keys
