-- ===== src/Retry.antt =====
-- src/pysilience/retry.py: the configuration, the waits between attempts, and the loop.
pub mod Config
pub mod Loop
pub mod Backoff
pub mod Attempts
pub mod Decorator
