-- ===== src/Execution/Store.antt =====
-- The tables of the execution runtime and the transactions on them.
pub mod Tables
pub mod Lease
pub mod Writes
pub mod Unfenced
pub mod Admission
pub mod Counts
pub mod Lockstep
pub mod Preserve
pub mod Requeue
pub mod Admit
pub mod Evolve
pub mod Reach
pub mod Lifecycle
pub mod Fencing
pub mod Capacity
pub mod Claiming
