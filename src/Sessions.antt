-- ===== src/Sessions.antt =====
-- Refresh tokens: internal/auth/auth.go. Table is the in-memory store, Refresh the rotation; their properties stand in Spent,
-- Rotation, Reuse and Bound.
pub mod Table
pub mod Refresh
pub mod Records
pub mod Spent
pub mod Rotation
pub mod Reuse
pub mod Deletion
pub mod Candidates
pub mod Bound
