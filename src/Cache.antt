-- ===== src/Cache.antt =====
-- src/pysilience/cache.py: the in-memory backend, the coordination of callers, and `execute`.
pub mod Config
pub mod Memory
pub mod Laws
pub mod Reads
pub mod History
pub mod Coordination
pub mod Async
pub mod Sides
pub mod Marks
pub mod Keys
pub mod Coalesce
pub mod Abandoned
pub mod Decorator
