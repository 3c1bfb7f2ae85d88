-- ===== src/Timeout.antt =====
-- src/pysilience/timeout.py: the configuration, `class Timeout` and how its calls end.
pub mod Config
pub mod Limiter
pub mod Resources
pub mod Background
pub mod Shutdown
pub mod Outcomes
pub mod Decorator
