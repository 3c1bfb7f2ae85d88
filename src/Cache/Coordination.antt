-- ===== src/Cache/Coordination.antt =====
-- src/pysilience/cache.py: `class Cache` over any backend, its synchronous side. Each block under
-- the lock is one step. A caller that waits on the condition gives way to other calls: `wakeups`
-- lists what they do to the object until each time that it is woken. `events` has the latest first.
use pysilience.Prelude.{Bool, Option, none, some, List, [], ◌∷◌, String, if◌then◌else◌}
use pysilience.Python.{or_default, Exc, is_exception, Result, ok, raise}
use pysilience.Cache.Config.{Config, CacheBackend, Event, EventType}
unfoldable pub use pysilience.Python.Sets.{contains, discard}

pub record Cache {ℓ} (K B : Type ℓ) : Type ℓ where
  pub config : Config
  pub name : String
  pub backend : B
  pub inflight : List K
  pub async_inflight : List K
  pub events : List (Event K)

-- `__init__`, with the backend that was given or made.
unfoldable pub init {ℓ} : {K B : Type ℓ} → Config → Option String → B → Cache K B
init config name backend = record {
  config = config;
  name = or_default name "cache";
  backend = backend;
  inflight = [];
  async_inflight = [];
  events = [];
}

-- What a caller that asks for a key is told: the value, that it is to compute it, that another is
-- computing it, or that the backend raised.
pub data Reservation {ℓ} (V : Type ℓ) : Type ℓ where
  cached : V → Reservation V
  reserved : Reservation V
  busy : Reservation V
  failed : Exc → Reservation V

module _ {ℓ} {K V B : Type ℓ} (dec : Discrete K) (ops : CacheBackend K V B) where
  -- `_emit_event`
  abbrev pub emit : EventType → K → Option Exc → Cache K B → Cache K B
  emit event_type key exc c = record c {
    events =
        record { event_type = event_type; name = c.name; key = key; exception = exc } ∷ c.events;
  }

  -- The test of `_sync_check_or_reserve`, after the backend answered.
  unfoldable pub reserve_with : Result (Option V) → K → Cache K B → Reservation V × Cache K B
  reserve_with (raise err) key c = (failed err, c)
  reserve_with (ok (some value)) key c = (cached value, c)
  reserve_with (ok none) key c =
      if contains dec key c.inflight
      then (busy, c)
      else (reserved, record c { inflight = key ∷ c.inflight })

  -- One round of the loop of `_sync_check_or_reserve`.
  unfoldable pub reserve : K → Cache K B → Reservation V × Cache K B
  reserve key c =
      let (answer, b) = ops.get key c.backend in reserve_with answer key (record c { backend = b })

  -- `_sync_check_or_reserve`; it answers `busy` if the caller still waits after the last wakeup.
  unfoldable pub sync_check_or_reserve :
      K → List (Cache K B → Cache K B) → Cache K B → Reservation V × Cache K B
  sync_check_or_reserve key [] c = reserve key c
  sync_check_or_reserve key (others ∷ wakeups) c =
      let (answer, c') = reserve key c in
      elim answer [
        | busy ↦ sync_check_or_reserve key wakeups (others c')
        | cached value ↦ (cached value, c')
        | reserved ↦ (reserved, c')
        | failed err ↦ (failed err, c')
      ]

  -- `_sync_unreserve`
  unfoldable pub sync_unreserve : K → Cache K B → Cache K B
  sync_unreserve key c = record c { inflight = discard dec key c.inflight }

  -- The rest of `_sync_store_and_unreserve` and of `execute`, after the backend answered `put`: if
  -- it raised, the key stays in flight.
  unfoldable pub stored : Result (Unit {0}) → K → V → Cache K B → Result V × Cache K B
  stored (raise err) key value c = (raise err, c)
  stored (ok _) key value c = (ok value, emit EventType.miss key none (sync_unreserve key c))

  -- The end of `execute` for the caller that computes: `except Exception` lets other exceptions
  -- pass it by, and the key stays in flight.
  unfoldable pub finish : K → Result V → Cache K B → Result V × Cache K B
  finish key (ok value) c =
      let (answer, b) = ops.put key value c.config.ttl c.backend in
      stored answer key value (record c { backend = b })
  finish key (raise exc) c = (
    raise exc,
    if is_exception exc then emit EventType.error key (some exc) (sync_unreserve key c) else c,
  )

  -- `execute` after `_sync_check_or_reserve`.
  unfoldable pub execute_with :
      Reservation V
      → K
      → (Cache K B → Result V × Cache K B)
      → Cache K B
      → Option (Result V) × Cache K B
  execute_with (cached value) key func c = (some (ok value), emit EventType.hit key none c)
  execute_with busy key func c = (none, c)
  execute_with (failed err) key func c = (some (raise err), c)
  execute_with reserved key func c =
      let (result, after) = func c in
      let (outcome, c') = finish key result after in (some outcome, c')

  -- `execute`; `none` means that the caller still waits. While `func` runs, other calls may use the
  -- object: `func` takes it and returns it.
  unfoldable pub execute :
      List (Cache K B → Cache K B)
      → K
      → (Cache K B → Result V × Cache K B)
      → Cache K B
      → Option (Result V) × Cache K B
  execute wakeups key func c =
      let (answer, c') = sync_check_or_reserve key wakeups c in execute_with answer key func c'

  -- `invalidate`
  unfoldable pub invalidate : K → Cache K B → Result Bool × Cache K B
  invalidate key c =
      let (answer, b) = ops.delete key c.backend in (answer, record c { backend = b })

  -- `invalidate_all`
  unfoldable pub invalidate_all : Cache K B → Result (Unit {0}) × Cache K B
  invalidate_all c = let (answer, b) = ops.clear c.backend in (answer, record c { backend = b })
