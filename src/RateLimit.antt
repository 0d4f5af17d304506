-- ===== src/RateLimit.antt =====
-- The rate limiters: `redis-rate-limiter/src/lib.rs`, and the local cache in front of it,
-- `deferred-rate-limiter/src/lib.rs`.
pub mod Redis
pub mod Deferred
