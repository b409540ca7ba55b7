-- ===== src/Api.antt =====
-- The middleware of the HTTP layer that has rules of its own (apps/api/src/middleware).
pub mod RateLimit
