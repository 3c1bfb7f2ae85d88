-- ===== src/Tests.antt =====
-- Runs of the components at concrete inputs.
mod Data
mod CircuitBreaker
mod Retry
mod Bulkhead
mod Cache
mod HmacSerializer
mod JsonSerializer
mod MsgpackSerializer
mod Server
mod Redis
mod Rest
mod RateLimiter
mod Timeout
mod AsyncCache
mod Factories
mod Composition
