-- ===== src/Core.antt =====
-- src/pysilience/core: the registry of named instances, and the notification of listeners.
pub mod Registry
pub mod Listeners
pub mod Factory
