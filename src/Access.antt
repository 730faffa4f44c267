-- ===== src/Access.antt =====
-- Who may do what: internal/rbac/rbac.go (Roles, Declared, Implemented, Permissions), internal/authz/authz.go (Authorizer) and the
-- check of a token's claims in internal/auth/auth.go (Roles); the routes (Routes) and the way of a request to them (Requests).
pub mod Roles
pub mod Declared
pub mod Implemented
pub mod Permissions
pub mod Authorizer
pub mod Tables
pub mod Routes
pub mod Requests
pub mod Surface
pub mod RuleChecks
pub mod Isolation
pub mod PublicPaths
pub mod Served
