-- ===== src/RateLimiter/Limiter.antt =====
-- src/pysilience/ratelimiter.py: `class RateLimiter`. Each block under the lock is one step. While a
-- caller sleeps, others may use the object: `wakeups` lists what they do to it during each sleep.
-- `events` has the latest first.
use pysilience.Prelude.{
  ℕ, ◌+◌, ◌-◌, Option, none, some, List, [], ◌∷◌, String, leb, ◌==◌, if◌then◌else◌,
}
use pysilience.Python.{
  or_default, Exc, rate_limit_exceeded, is_exception, Result, ok, raise, Clock, monotonic, sleep,
  Quotient, of_ℕ, minq, ceil,
}
use pysilience.RateLimiter.Config.{Config, Event, EventType}
use pysilience.RateLimiter.Strategy.{
  Strategy, create_strategy, try_acquire, seconds_until_available, permits,
}

pub record RateLimiter : Type 0 where
  pub config : Config
  pub name : String
  pub strategy : Strategy
  pub clock : Clock
  pub events : List Event

-- `__init__`
unfoldable pub init : Config → Option String → Clock → RateLimiter
init config name clock =
    let (strategy, clock') = create_strategy config clock in
    record {
      config = config;
      name = or_default name "ratelimiter";
      strategy = strategy;
      clock = clock';
      events = [];
    }

-- `available_permits`
unfoldable pub available_permits : RateLimiter → ℕ × RateLimiter
available_permits l =
    let (n, strategy, clock) = permits l.strategy l.clock in
    (n, record l { strategy = strategy; clock = clock })

-- `_emit_event`
abbrev pub emit : EventType → ℕ → Quotient → Option Exc → RateLimiter → RateLimiter
emit event_type available wait_time exc l = record l {
  events =
      record {
        event_type = event_type;
        name = l.name;
        available_permits = available;
        wait_time = wait_time;
        exception = exc;
      }
      ∷ l.events;
}

-- `_reject`
abbrev pub reject : Quotient → RateLimiter → Exc
reject wait_time l = rate_limit_exceeded l.name 0 wait_time

-- How one round of the loop of `acquire` ends: with a permit, after `waited`; with an exception; or
-- with a sleep.
pub data Round : Type 0 where
  granted : ℕ → Round
  refused : Exc → Round
  asleep : Quotient → Round

-- `raise self._reject(self._strategy.seconds_until_available())`
unfoldable pub refuse : RateLimiter → Round × RateLimiter
refuse l =
    let (wait_needed, strategy, clock) = seconds_until_available l.strategy l.clock in
    let l' = record l { strategy = strategy; clock = clock } in
    (refused (reject wait_needed l'), l')

-- The rest of a round in which no permit was there.
unfoldable pub refuse_or_sleep : ℕ → RateLimiter → Round × RateLimiter
refuse_or_sleep due l =
    if l.config.timeout_duration == 0
    then refuse l
    else let read = record l { clock = monotonic l.clock } in
      if leb due read.clock.now
      then refuse read
      else let (until, strategy, clock) = seconds_until_available read.strategy read.clock in
        (
          asleep (minq until (of_ℕ (due - read.clock.now))),
          record l { strategy = strategy; clock = clock },
        )

-- The block under the lock.
unfoldable pub acquire_round : ℕ → ℕ → RateLimiter → Round × RateLimiter
acquire_round start due l =
    let (got, strategy, clock) = try_acquire l.strategy l.clock in
    let tried = record l { strategy = strategy; clock = clock } in
    if got
    then (granted ((monotonic clock).now - start), record tried { clock = monotonic clock })
    else refuse_or_sleep due tried

-- `time.sleep(sleep_for)`
abbrev pub sleep_for : Quotient → RateLimiter → RateLimiter
sleep_for wait l = record l { clock = sleep (ceil wait) l.clock }

-- The loop of `acquire`. It answers `asleep` if the caller still waits after the last wakeup.
unfoldable pub acquire_loop :
    ℕ → ℕ → List (RateLimiter → RateLimiter) → RateLimiter → Round × RateLimiter
acquire_loop start due [] l = acquire_round start due l
acquire_loop start due (others ∷ wakeups) l =
    let (answer, l') = acquire_round start due l in
    elim answer [
      | granted waited ↦ (granted waited, l')
      | refused err ↦ (refused err, l')
      | asleep wait ↦ acquire_loop start due wakeups (others (sleep_for wait l'))
    ]

-- `acquire`
unfoldable pub acquire : List (RateLimiter → RateLimiter) → RateLimiter → Round × RateLimiter
acquire wakeups l =
    let start = record l { clock = monotonic l.clock } in
    acquire_loop start.clock.now (start.clock.now + l.config.timeout_duration) wakeups start

-- `acquire_async`: the same loop, with `asyncio.sleep`.
unfoldable pub acquire_async : List (RateLimiter → RateLimiter) → RateLimiter → Round × RateLimiter
acquire_async wakeups l =
    let start = record l { clock = monotonic l.clock } in
    acquire_loop start.clock.now (start.clock.now + l.config.timeout_duration) wakeups start

-- The second `try` of `execute`: an exception that is no `Exception` is not told to the listeners.
unfoldable pub tell {ℓ} : {A : Type ℓ} → ℕ → Result A → RateLimiter → RateLimiter
tell waited (ok _) l =
    let (n, l') = available_permits l in emit EventType.success n (of_ℕ waited) none l'
tell waited (raise exc) l =
    let (n, l') = available_permits l in
    if is_exception exc then emit EventType.error n (of_ℕ waited) (some exc) l' else l

-- The `wait_time` of an exception of `acquire`.
abbrev wait_of : Exc → Quotient
wait_of (rate_limit_exceeded _ _ wait_time) = wait_time
wait_of _ = of_ℕ 0

-- `execute` after `acquire`; `none` means that the caller still waits.
unfoldable pub execute_with {ℓ} :
    {A : Type ℓ}
    → Round
    → (RateLimiter → Result A × RateLimiter)
    → RateLimiter
    → Option (Result A) × RateLimiter
execute_with (granted waited) func l =
    let (result, after) = func l in (some result, tell waited result after)
execute_with (refused err) func l =
    (some (raise err), emit EventType.rejected 0 (wait_of err) (some err) l)
execute_with (asleep wait) func l = (none, l)

-- `execute`. While `func` runs, other calls may use the object: `func` takes it and returns it.
unfoldable pub execute {ℓ} :
    {A : Type ℓ}
    → List (RateLimiter → RateLimiter)
    → (RateLimiter → Result A × RateLimiter)
    → RateLimiter
    → Option (Result A) × RateLimiter
execute wakeups func l = let (answer, l') = acquire wakeups l in execute_with answer func l'

-- `execute_async`: the same over an awaited factory.
unfoldable pub execute_async {ℓ} :
    {A : Type ℓ}
    → List (RateLimiter → RateLimiter)
    → (RateLimiter → Result A × RateLimiter)
    → RateLimiter
    → Option (Result A) × RateLimiter
execute_async wakeups factory l =
    let (answer, l') = acquire_async wakeups l in execute_with answer factory l'
