-- ===== src/Security.antt =====
-- internal/security: the fixed-window rate limiter.
pub mod Throttle
