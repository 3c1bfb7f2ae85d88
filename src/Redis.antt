-- ===== src/Redis.antt =====
-- src/pysilience/cache_redis.py: `RedisBackend`, over a client and a serializer.
pub mod Client
pub mod Backend
pub mod Answers
pub mod Clear
pub mod Reads
pub mod Refinement
pub mod Caching
pub mod Blocked
