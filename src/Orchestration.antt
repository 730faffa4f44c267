-- ===== src/Orchestration.antt =====
-- The creator pipeline: internal/orchestration and infrastructure/postgres/pipelines.go.
pub mod Pipeline
pub mod Store
pub mod Service
pub mod Advance
pub mod Commands
pub mod Approval
