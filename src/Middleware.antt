-- ===== src/Middleware.antt =====
-- internal/middleware: the rate limiter in front of the HTTP gateway.
pub mod RateLimit
pub mod Tests
