-- ===== src/RateLimit.antt =====
-- sphere/src/rate_limit: token buckets, and the limiter that keeps one for each caller and tool.
pub mod TokenBucket
pub mod Limiter
