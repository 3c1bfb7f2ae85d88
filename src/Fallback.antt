-- ===== src/Fallback.antt =====
-- src/pysilience/fallback.py: the object and what its callers see.
pub mod Handler
pub mod Outcomes
pub mod Decorator
