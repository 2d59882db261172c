-- ===== src/RateLimit.antt =====
-- internal/ratelimit: the fixed-window limiter, the sliding-window limiter, and the keys of both.
pub mod Redis
pub mod Reply
pub mod Key
pub mod Fixed
pub mod SortedSets
pub mod Sliding
pub mod Checks
