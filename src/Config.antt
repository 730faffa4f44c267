-- ===== src/Config.antt =====
-- The settings of a process and the check of those that select its backends, its role and its sweep loop:
-- internal/config/config.go.
pub mod Settings
pub mod Roles
pub mod Backends
pub mod Accepted
pub mod Checks
pub mod Deployment
