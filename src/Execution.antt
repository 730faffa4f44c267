-- ===== src/Execution.antt =====
-- The AI execution runtime: internal/execution and infrastructure/postgres/executions.go.
pub mod Types
pub mod Classify
pub mod Backoff
pub mod Store
pub mod Io
pub mod Service
pub mod Dispatcher
pub mod Worker
