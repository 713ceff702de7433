-- ===== src/Core.antt =====
-- The modules of core/: errors, the rate limiter, the request manager.
pub mod Errors
pub mod Json
pub mod Values
pub mod RateLimiter
pub mod RequestManager
mod Tests
