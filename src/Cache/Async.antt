-- ===== src/Cache/Async.antt =====
-- src/pysilience/cache.py: the asynchronous side of `class Cache`. The keys of the dict
-- `_async_inflight` are the list `async_inflight`; its events are what ends a wait: `wakeups` lists
-- what other coroutines do to the object until each time that the caller's event is set.
use pysilience.Prelude.{ℕ, Option, none, some, List, [], ◌∷◌, if◌then◌else◌}
use pysilience.Python.{is_exception, Result, ok, raise}
use pysilience.Cache.Config.{CacheBackend, EventType}
use pysilience.Cache.Coordination.{
  Cache, Reservation, cached, reserved, busy, failed, contains, discard, emit,
}

module _ {ℓ} {K V B : Type ℓ} (dec : Discrete K) (ops : CacheBackend K V B) where
  -- The test under the lock: the key is marked, or another computes it.
  unfoldable pub mark : K → Cache K B → Reservation V × Cache K B
  mark key c =
      if contains dec key c.async_inflight
      then (busy, c)
      else (reserved, record c { async_inflight = key ∷ c.async_inflight })

  -- What follows the answer of the backend: a value is returned, a miss goes on to the test.
  unfoldable pub mark_on_miss : Result (Option V) → K → Cache K B → Reservation V × Cache K B
  mark_on_miss (raise err) key c = (failed err, c)
  mark_on_miss (ok (some value)) key c = (cached value, c)
  mark_on_miss (ok none) key c = mark key c

  -- One round of the loop of `_async_check_or_reserve` over a `MemoryBackend`: `get` and the test
  -- under one lock.
  unfoldable pub memory_round : K → Cache K B → Reservation V × Cache K B
  memory_round key c =
      let (answer, b) = ops.get key c.backend in mark_on_miss answer key (record c { backend = b })

  -- The loop over a `MemoryBackend`; it answers `busy` if the caller still waits after the last
  -- wakeup.
  unfoldable pub memory_loop :
      K → List (Cache K B → Cache K B) → Cache K B → Reservation V × Cache K B
  memory_loop key [] c = memory_round key c
  memory_loop key (others ∷ wakeups) c =
      let (answer, c') = memory_round key c in
      elim answer [
        | busy ↦ memory_loop key wakeups (others c')
        | cached value ↦ (cached value, c')
        | reserved ↦ (reserved, c')
        | failed err ↦ (failed err, c')
      ]

  -- Over any other backend: `aget` without the lock, while others run, and then the test.
  unfoldable pub remote_round : (Cache K B → Cache K B) → K → Cache K B → Reservation V × Cache K B
  remote_round meanwhile key c =
      let (answer, b) = ops.aget key c.backend in
      mark_on_miss answer key (meanwhile (record c { backend = b }))

  -- The loop over any other backend: with each wakeup, what others do until the event is set, and
  -- during the next `aget`.
  unfoldable pub remote_loop :
      (Cache K B → Cache K B)
      → K
      → List ((Cache K B → Cache K B) × (Cache K B → Cache K B))
      → Cache K B
      → Reservation V × Cache K B
  remote_loop meanwhile key [] c = remote_round meanwhile key c
  remote_loop meanwhile key ((others, during) ∷ wakeups) c =
      let (answer, c') = remote_round meanwhile key c in
      elim answer [
        | busy ↦ remote_loop during key wakeups (others c')
        | cached value ↦ (cached value, c')
        | reserved ↦ (reserved, c')
        | failed err ↦ (failed err, c')
      ]

  -- `_async_unreserve`
  unfoldable pub async_unreserve : K → Cache K B → Cache K B
  async_unreserve key c = record c { async_inflight = discard dec key c.async_inflight }

  -- `_async_store_and_unreserve` and the rest of `execute_async`, after the backend answered: if it
  -- raised, the key stays in flight.
  unfoldable pub async_stored : Result (Unit {0}) → K → V → Cache K B → Result V × Cache K B
  async_stored (raise err) key value c = (raise err, c)
  async_stored (ok _) key value c =
      (ok value, emit dec ops EventType.miss key none (async_unreserve key c))

  -- The end of `execute_async` for the caller that computes. `put` is the backend's: `put` for a
  -- `MemoryBackend`, `aput` for another; `during` is what others do while that is awaited.
  unfoldable pub async_finish :
      (K → V → Option ℕ → B → Result (Unit {0}) × B)
      → (Cache K B → Cache K B)
      → K
      → Result V
      → Cache K B
      → Result V × Cache K B
  async_finish put during key (ok value) c =
      let (answer, b) = put key value c.config.ttl c.backend in
      async_stored answer key value (during (record c { backend = b }))
  async_finish put during key (raise exc) c = (
    raise exc,
    if is_exception exc
        then emit dec ops EventType.error key (some exc) (async_unreserve key c)
        else c,
  )

  -- `execute_async` after `_async_check_or_reserve`.
  unfoldable pub execute_async_with :
      (K → V → Option ℕ → B → Result (Unit {0}) × B)
      → (Cache K B → Cache K B)
      → Reservation V
      → K
      → (Cache K B → Result V × Cache K B)
      → Cache K B
      → Option (Result V) × Cache K B
  execute_async_with put during (cached value) key factory c =
      (some (ok value), emit dec ops EventType.hit key none c)
  execute_async_with put during busy key factory c = (none, c)
  execute_async_with put during (failed err) key factory c = (some (raise err), c)
  execute_async_with put during reserved key factory c =
      let (result, after) = factory c in
      let (outcome, c') = async_finish put during key result after in (some outcome, c')

  -- `execute_async` over a `MemoryBackend`; `none` means that the caller still waits.
  unfoldable pub execute_async_memory :
      List (Cache K B → Cache K B)
      → K
      → (Cache K B → Result V × Cache K B)
      → Cache K B
      → Option (Result V) × Cache K B
  execute_async_memory wakeups key factory c =
      let (answer, c') = memory_loop key wakeups c in
      execute_async_with ops.put (λ d. d) answer key factory c'

  -- `execute_async` over any other backend: others run during the first `aget`, the waits, and `aput`.
  unfoldable pub execute_async_remote :
      (Cache K B → Cache K B)
      → (Cache K B → Cache K B)
      → List ((Cache K B → Cache K B) × (Cache K B → Cache K B))
      → K
      → (Cache K B → Result V × Cache K B)
      → Cache K B
      → Option (Result V) × Cache K B
  execute_async_remote meanwhile storing wakeups key factory c =
      let (answer, c') = remote_loop meanwhile key wakeups c in
      execute_async_with ops.aput storing answer key factory c'
