-- ===== src/SqlServer.antt =====
-- repository/sqlserver/repository.go: the repository on SQL Server. Each method is a function on the
-- table; what it shares with the one on PostgreSQL is taken from there.
pub mod Lease
pub mod Enqueue
pub mod Admin
pub mod Dlq
pub mod Query
pub mod Steps
pub mod Inserts
pub mod Runs
pub mod Fencing
