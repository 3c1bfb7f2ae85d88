-- ===== src/Lib.antt =====
-- pysilience: patterns that make calls resilient (circuit breaker, retry, bulkhead, rate limiter,
-- cache, fallback, timeout), each as a class with a configuration, a list of event listeners, and
-- `execute` and `execute_async`, which run a callable under the pattern, so that they can be put
-- around each other. They share `core/listeners.py`, which tells the listeners, and
-- `core/registry.py`.
--
-- Which file models what (paths from the root of the repository):
-- - Python: exceptions as values with the classes that they are instances of, `time.monotonic` and
--   `time.sleep` over a clock that belongs to the machine, exact quotients in place of floats.
-- - CircuitBreaker/Config, Breaker/Object, Breaker/Completion: `src/pysilience/circuitbreaker.py`.
--   The record `Breaker` is the object; `acquire_permission`, `record_outcome`, `window_record`,
--   `on_complete`, `reset`, `execute` are the methods of those names. Window, Invariant, Admission,
--   HalfOpen and Machine hold the proofs; Steps has the object under concurrent calls as a step
--   relation.
-- - Retry/Config, Loop: `src/pysilience/retry.py`; Backoff (the waits) and Attempts (the loop) hold
--   the proofs.
-- - Bulkhead/Config, Permits: `src/pysilience/bulkhead.py`; Machine (concurrent calls) and Execute
--   hold the proofs.
-- - Cache/Config, Memory: `MemoryBackend` of `src/pysilience/cache.py`; Laws, Reads and History
--   hold its proofs. Cache/Coordination: the synchronous side of `class Cache`, over any backend;
--   Cache/Async: its asynchronous side. Keys, Coalesce and Marks (concurrent callers of each side),
--   Sides (the two sides compared) and Abandoned hold the proofs.
-- - Python/Dict: dictionaries in the order of insertion; Python/Sets: sets; Python/Encoding: bytes
--   and UTF-8.
-- - Serializer/Protocol, Hmac, Json, Msgpack: `src/pysilience/cache_serializer.py` and the files of
--   the three serializers. Json/Values, Envelope and Codec hold the definitions, Json/Storable says
--   which values can be stored, Json/RoundTrip and Lookalikes hold proofs; Msgpack/Codec has
--   `_default` and `_ext_hook`, Builtins the handlers for dates and times, and Registry,
--   Registering, Removal, History and Extensions hold proofs; Hmac/Laws and Secrets hold those of
--   the signed pickle.
-- - Redis/Client: the client of Redis, a parameter, and what is relied on of it. Redis/Backend:
--   `RedisBackend` of `src/pysilience/cache_redis.py`. Answers, Reads, Refinement and Clear hold
--   its proofs; Caching and Blocked those of `class Cache` over it.
-- - RateLimiter/Config, Token, Leaky, Fixed, Sliding, Strategy, Limiter:
--   `src/pysilience/ratelimiter.py`; Smooth (the weighted count), Counted (the grants that it
--   counts), Waits (announced waits) and Outcomes hold further proofs.
-- - Timeout/Config, Limiter, Outcomes: `src/pysilience/timeout.py`. Timeout/Resources adds the
--   executor and the background tasks to the object; Background has them under concurrent calls as
--   a step relation, and Shutdown has the calls after `shutdown`.
-- - Fallback/Handler, Outcomes: `src/pysilience/fallback.py`.
-- - Core/Listeners, Registry: `src/pysilience/core/`; Listeners has the `on_event` of all classes.
--   Core/Factory: what the functions `create_...` share.
-- - Decorator, a child of each pattern: the decorator function, the wrappers that `__call__` makes,
--   and `create_...` of its file; Cache/Decorator has `_make_key` too. Factories: the functions
--   `create_...` together. Composition/FallbackRetry: a fallback around a retry.
-- - Tests: runs at concrete inputs.
--
-- How it is modelled. A method takes the object and returns it with its result; an exception is a
-- value of `Result`. A block under a lock is one step. A callable that runs meanwhile takes and
-- returns the object, since other calls may use it, or the world that it works on. Where a caller
-- waits for others, a list `wakeups` says what they do until each time that it is woken; the answer
-- then has a case for a caller that still waits. Times are whole ticks; `delays` of the clock says
-- how much time passes before each reading, so a statement for every clock is one for every timing.
-- Rates, intervals and factors are exact quotients, compared by multiplying out: the rounding of
-- floats is not modelled, but that the power of the back-off overflows is. Numbers are unbounded,
-- as in Python. Signed arguments are an own type, which the checks of a configuration turn into
-- numbers. The events handed to the listeners are a list in the object, the latest first; that a
-- listener cannot break a caller is Core/Listeners. The loop of `clear` is recursion on fuel, with
-- a theorem that as many passes as the server needs are enough; the walk of `json.dumps` is
-- recursion on the depth at which the interpreter stops it. The loop of the retry is recursion on
-- the attempts that `range` gives, so it needs no fuel.
--
-- Listeners are told in the step of the block before, although the code does so after it has
-- released the lock.
--
-- A decorated function is one of the two wrappers over the object that the decorator makes; that
-- `functools.wraps` keeps its name is not modelled.
--
-- Not modelled: the queue of the executor; the texts of dates and times, which are those of
-- Python's `datetime`. Of JSON, dictionaries have texts as keys. Exceptions carry no message. A
-- second cancellation that hits `_async_release` while it waits for its lock is not modelled.
pub mod Prelude
pub mod Python
pub mod CircuitBreaker
pub mod Retry
pub mod Cache
pub mod Serializer
pub mod Redis
pub mod Fallback
pub mod Core
pub mod Bulkhead
pub mod RateLimiter
pub mod Timeout
pub mod Factories
pub mod Composition
pub mod Tests
