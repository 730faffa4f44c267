-- ===== src/Publishing.antt =====
-- Publications and their human approval: internal/publish/publish.go (Lifecycle), infrastructure/postgres/publications.go (Store),
-- internal/publish/service.go (Create, Service).
pub mod Lifecycle
pub mod Store
pub mod Create
pub mod Service
pub mod Approval
pub mod Overwrites
