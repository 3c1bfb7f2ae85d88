-- ===== src/CircuitBreaker.antt =====
-- src/pysilience/circuitbreaker.py: the configuration, the object and its methods, the sliding
-- window, the invariant, the half-open state, and the object under concurrent calls.
pub mod Config
pub mod Breaker
pub mod Window
pub mod Invariant
pub mod Admission
pub mod HalfOpen
pub mod Steps
pub mod Machine
pub mod Decorator
