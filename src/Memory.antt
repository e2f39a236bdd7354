-- ===== src/Memory.antt =====
-- repository/memory/repository.go, one module for each group of its methods, and their proofs.
pub mod State
pub mod Enqueue
pub mod Claim
pub mod Lease
pub mod Admin
pub mod Bulk
pub mod Query
pub mod Listing
pub mod Evolves
pub mod Steps
pub mod Index
pub mod Resolve
pub mod Exclusive
pub mod Choice
pub mod Claims
pub mod Keys
pub mod Reach
pub mod Runs
pub mod Fencing
pub mod Progress
pub mod Outcomes
pub mod Blocking
pub mod Recovery
pub mod Dlq
pub mod Counts
pub mod Batch
