-- ===== src/Bulkhead.antt =====
-- src/pysilience/bulkhead.py: the object, its permits under concurrent calls, and `execute`.
pub mod Config
pub mod Permits
pub mod Machine
pub mod Execute
pub mod Decorator
