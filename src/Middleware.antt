-- ===== src/Middleware.antt =====
-- internal/api/middleware: what stands in front of the handlers.
pub mod Ratelimit
pub mod Auth
pub mod Limit
pub mod Guard
