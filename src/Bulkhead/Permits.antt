-- ===== src/Bulkhead/Permits.antt =====
-- src/pysilience/bulkhead.py: `class Bulkhead`. `sync_sem` is the value of the threading semaphore;
-- `async_n` and `async_wake` are the counter and the event of the asynchronous side. A caller that
-- waits gives way to other calls: `wakeups` lists what they do to the object until each time that
-- it is woken. `events` has the latest first.
use pysilience.Prelude.{
  ℕ, ◌+◌, ◌-◌, Bool, true, false, Option, none, some, List, [], ◌∷◌, String, ltb, leb, ◌==◌,
  if◌then◌else◌,
}
use pysilience.Python.{
  or_default, Exc, bulkhead_rejected, is_exception, Result, ok, raise, Clock, monotonic,
}
use pysilience.Bulkhead.Config.{Config, Event, EventType}

pub record Bulkhead : Type 0 where
  pub config : Config
  pub name : String
  pub clock : Clock
  pub sync_sem : ℕ
  pub async_n : ℕ
  pub async_wake : Bool
  pub events : List Event

-- `__init__`
unfoldable pub init : Config → Option String → Clock → Bulkhead
init config name clock = record {
  config = config;
  name = or_default name "bulkhead";
  clock = clock;
  sync_sem = config.max_concurrent;
  async_n = config.max_concurrent;
  async_wake = ltb 0 config.max_concurrent;
  events = [];
}

-- `_emit_event`
abbrev pub emit : EventType → Option Exc → Bulkhead → Bulkhead
emit event_type exc b = record b {
  events =
      record {
        event_type = event_type;
        name = b.name;
        max_concurrent = b.config.max_concurrent;
        exception = exc;
      }
      ∷ b.events;
}

-- `_reject`
abbrev pub reject : Bulkhead → Exc
reject b = bulkhead_rejected b.name b.config.max_concurrent

-- `acquire(blocking=False)` of the semaphore.
unfoldable pub sem_try : Bulkhead → Bool × Bulkhead
sem_try b = if ltb 0 b.sync_sem then (true, record b { sync_sem = b.sync_sem - 1 }) else (false, b)

-- `acquire(blocking=True, timeout=…)`: the timeout comes after the last wakeup.
unfoldable pub sem_wait : List (Bulkhead → Bulkhead) → Bulkhead → Bool × Bulkhead
sem_wait [] b = sem_try b
sem_wait (others ∷ wakeups) b =
    let (taken, b') = sem_try b in
    elim taken [ true ↦ (true, b') | false ↦ sem_wait wakeups (others b') ]

-- `_sync_acquire`
unfoldable pub sync_acquire : List (Bulkhead → Bulkhead) → Bulkhead → Bool × Bulkhead
sync_acquire wakeups b = if b.config.max_wait == 0 then sem_try b else sem_wait wakeups b

-- `self._sync_sem.release()`
unfoldable pub sync_release : Bulkhead → Bulkhead
sync_release b = record b { sync_sem = b.sync_sem + 1 }

-- How one round of the loop of `_async_acquire` ends: with a permit, without, or with a wait.
pub data Attempt : Type 0 where
  taken refused : Attempt
  wait : ℕ → Attempt

-- The deadline, and the clock after it was set.
unfoldable pub deadline : Bulkhead → ℕ × Bulkhead
deadline b =
    if ltb 0 b.config.max_wait
    then ((monotonic b.clock).now + b.config.max_wait, record b { clock = monotonic b.clock })
    else (0, b)

-- The block under `self._async_mu`. (`deadline` counts only if `max_wait` is positive.)
unfoldable pub async_try : ℕ → Bulkhead → Attempt × Bulkhead
async_try due b =
    if ltb 0 b.async_n
    then (
      taken,
      record b {
        async_n = b.async_n - 1;
        async_wake = if b.async_n - 1 == 0 then false else b.async_wake;
      },
    )
    else if b.config.max_wait == 0
    then (refused, b)
    else let read = record b { clock = monotonic b.clock } in
      if leb due read.clock.now then (refused, read) else (wait (due - read.clock.now), read)

-- The loop of `_async_acquire`: a wait ends by the event or by its timeout, and the loop goes on.
-- It answers `wait` if the caller still waits after the last wakeup.
unfoldable pub async_loop : ℕ → List (Bulkhead → Bulkhead) → Bulkhead → Attempt × Bulkhead
async_loop due [] b = async_try due b
async_loop due (others ∷ wakeups) b =
    let (answer, b') = async_try due b in
    elim answer [
      | taken ↦ (taken, b')
      | refused ↦ (refused, b')
      | wait t ↦ async_loop due wakeups (others b')
    ]

-- `_async_acquire`
unfoldable pub async_acquire : List (Bulkhead → Bulkhead) → Bulkhead → Attempt × Bulkhead
async_acquire wakeups b = let (due, b') = deadline b in async_loop due wakeups b'

-- `_async_release`
unfoldable pub async_release : Bulkhead → Bulkhead
async_release b = record b { async_n = b.async_n + 1; async_wake = true }

-- The `try` of `execute`, before its `finally`: an exception that is no `Exception` is not told to
-- the listeners.
unfoldable pub tell {ℓ} : {A : Type ℓ} → Result A → Bulkhead → Bulkhead
tell (ok _) b = emit EventType.success none b
tell (raise exc) b = if is_exception exc then emit EventType.error (some exc) b else b

-- `execute` after `_sync_acquire`; `finally` releases on every path.
unfoldable pub execute_with {ℓ} :
    {A : Type ℓ} → Bool → (Bulkhead → Result A × Bulkhead) → Bulkhead → Result A × Bulkhead
execute_with false func b = (raise (reject b), emit EventType.rejected (some (reject b)) b)
execute_with true func b =
    let (result, after) = func b in (result, sync_release (tell result after))

-- `execute`. While `func` runs, other calls may use the object: `func` takes it and returns it.
unfoldable pub execute {ℓ} :
    {A : Type ℓ}
    → List (Bulkhead → Bulkhead)
    → (Bulkhead → Result A × Bulkhead)
    → Bulkhead
    → Result A × Bulkhead
execute wakeups func b =
    let (permitted, b') = sync_acquire wakeups b in execute_with permitted func b'

-- `execute_async` after `_async_acquire`; `none` means that the caller still waits.
unfoldable pub execute_async_with {ℓ} :
    {A : Type ℓ}
    → Attempt
    → (Bulkhead → Result A × Bulkhead)
    → Bulkhead
    → Option (Result A) × Bulkhead
execute_async_with taken factory b =
    let (result, after) = factory b in (some result, async_release (tell result after))
execute_async_with refused factory b =
    (some (raise (reject b)), emit EventType.rejected (some (reject b)) b)
execute_async_with (wait t) factory b = (none, b)

-- `execute_async`
unfoldable pub execute_async {ℓ} :
    {A : Type ℓ}
    → List (Bulkhead → Bulkhead)
    → (Bulkhead → Result A × Bulkhead)
    → Bulkhead
    → Option (Result A) × Bulkhead
execute_async wakeups factory b =
    let (answer, b') = async_acquire wakeups b in execute_async_with answer factory b'
