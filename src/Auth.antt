-- ===== src/Auth.antt =====
-- The access control of the dashboard (internal/web/middleware.go, internal/web/security.go).
pub mod LoginLimiter
pub mod RateLimiter
pub mod Tokens
