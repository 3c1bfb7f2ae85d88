-- ===== src/RateLimiter.antt =====
-- src/pysilience/ratelimiter.py: the configuration, the four strategies, and `class RateLimiter`.
pub mod Config
pub mod Token
pub mod Leaky
pub mod Fixed
pub mod Sliding
pub mod Smooth
pub mod Counted
pub mod Strategy
pub mod Limiter
pub mod Outcomes
pub mod Waits
pub mod Decorator
