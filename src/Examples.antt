-- ===== src/Examples.antt =====
-- The theorems at concrete inputs.
pub mod Board
mod Store
mod Runtime
mod Policy
mod Limiter
mod Pipelines
mod Tasks
mod Permits
mod Tokens
mod Publications
mod Lists
mod Deployments
