-- ===== src/Task.antt =====
-- The tasks of a workspace: internal/task and infrastructure/postgres/tasks.go.
pub mod Lifecycle
pub mod Service
pub mod Follows
pub mod Statuses
pub mod Overwrites
pub mod Listing
