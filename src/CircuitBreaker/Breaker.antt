-- ===== src/CircuitBreaker/Breaker.antt =====
-- src/pysilience/circuitbreaker.py: `class CircuitBreaker`. A method takes the object and returns
-- it with its result. Each block under `self._lock` is one step. `events` is what was handed to the
-- listeners, the latest first.
mod Object
mod Completion
unfoldable pub use Object.*
unfoldable pub use Completion.*
