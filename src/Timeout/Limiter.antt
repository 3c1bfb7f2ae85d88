-- ===== src/Timeout/Limiter.antt =====
-- src/pysilience/timeout.py: `class Timeout`. A call is a `Run`: how long it takes from its submission
-- on and how it ends; how it ends if an exception is raised in it when the time is over (that of the
-- signal handler, or the cancellation of its task), and how long it runs on until then. `holds` says
-- whether a coroutine holds the event loop at that time, so that its end is seen even if it is
-- shielded; one that never gives way ends as if it was not interrupted. `events` has the latest first.
use pysilience.Prelude.{
  ℕ, ◌+◌, ◌-◌, Bool, not, ◌&&◌, Option, none, some, List, [], ◌∷◌, String, leb, if◌then◌else◌,
}
use pysilience.Python.{
  or_default, Exc, operation_timeout, operation_timeout_class, timeout_error_class,
  cancelled_error_class, cancelled_error, is_instance, is_exception, Result, ok, raise, Clock,
  monotonic, sleep,
}
use pysilience.Timeout.Config.{Config, Event, EventType}

pub record Timeout : Type 0 where
  pub config : Config
  pub name : String
  pub clock : Clock
  pub events : List Event

pub record Run {ℓ} (A : Type ℓ) : Type ℓ where
  pub takes : ℕ
  pub result : Result A
  pub interrupted : Exc → Result A
  pub runs_on : ℕ
  pub holds : Bool

-- `__init__`; the executor is not a part of the object.
unfoldable pub init : Config → Option String → Clock → Timeout
init config name clock = record {
  config = config;
  name = or_default name "timeout";
  clock = clock;
  events = [];
}

-- `_emit_event`
abbrev pub emit : EventType → ℕ → Option Exc → Timeout → Timeout
emit event_type elapsed exc t = record t {
  events =
      record {
        event_type = event_type;
        name = t.name;
        duration_limit = t.config.duration;
        elapsed = elapsed;
        exception = exc;
      }
      ∷ t.events;
}

-- `elapsed = time.monotonic() - start_time`, and the clock after it.
abbrev pub elapsed_since : ℕ → Timeout → ℕ × Timeout
elapsed_since start t = ((monotonic t.clock).now - start, record t { clock = monotonic t.clock })

-- The branch of a call that was too late.
unfoldable pub time_out {ℓ} : {A : Type ℓ} → ℕ → Timeout → Result A × Timeout
time_out start t =
    let (elapsed, t') = elapsed_since start t in
    let err = operation_timeout t.name t.config.duration elapsed in
    (raise err, emit EventType.timed_out elapsed (some err) t')

-- The branch of a call that returned.
unfoldable pub succeed {ℓ} : {A : Type ℓ} → ℕ → A → Timeout → Result A × Timeout
succeed start a t =
    let (elapsed, t') = elapsed_since start t in (ok a, emit EventType.success elapsed none t')

-- `except Exception as e`; any other exception passes it by.
unfoldable pub fail {ℓ} : {A : Type ℓ} → ℕ → Exc → Timeout → Result A × Timeout
fail start exc t =
    let (elapsed, t') = elapsed_since start t in
    if is_exception exc
    then (raise exc, emit EventType.error elapsed (some exc) t')
    else (raise exc, t)

-- Whether `except concurrent.futures.TimeoutError` (or `asyncio.TimeoutError`) catches it.
unfoldable pub is_timeout_error : Exc → Bool
is_timeout_error exc = is_instance exc (timeout_error_class ∷ [])

-- The `try` after `future.result` or `asyncio.wait_for` gave the end of the call.
unfoldable pub conclude {ℓ} : {A : Type ℓ} → ℕ → Result A → Timeout → Result A × Timeout
conclude start (ok a) t = succeed start a t
conclude start (raise exc) t = if is_timeout_error exc then time_out start t else fail start exc t

-- `future.result(timeout=duration)`: the call ends in time, or `TimeoutError` is raised after
-- `duration`.
unfoldable pub wait_for {ℓ} : {A : Type ℓ} → ℕ → Run A → Timeout → Result A × Timeout
wait_for start run t =
    if leb run.takes t.config.duration
    then conclude start run.result (record t { clock = sleep run.takes t.clock })
    else time_out start (record t { clock = sleep t.config.duration t.clock })

-- `_execute_with_thread`
unfoldable pub execute_with_thread {ℓ} : {A : Type ℓ} → Run A → ℕ → Timeout → Result A × Timeout
execute_with_thread run start t = wait_for start run t

-- The `try` of `_execute_with_signal`, after `func` ended.
unfoldable pub conclude_signal {ℓ} : {A : Type ℓ} → ℕ → Result A → Timeout → Result A × Timeout
conclude_signal start (ok a) t = succeed start a t
conclude_signal start (raise exc) t =
    let (elapsed, t') = elapsed_since start t in
    if is_instance exc (operation_timeout_class ∷ [])
    then (raise exc, emit EventType.timed_out elapsed (some exc) t')
    else fail start exc t

-- `_execute_with_signal`: the handler raises in `func` after `duration`, which may catch that.
unfoldable pub execute_with_signal {ℓ} : {A : Type ℓ} → Run A → ℕ → Timeout → Result A × Timeout
execute_with_signal run start t =
    if leb run.takes t.config.duration
    then conclude_signal start run.result (record t { clock = sleep run.takes t.clock })
    else let rung = record t { clock = sleep t.config.duration t.clock } in
      let (elapsed, t') = elapsed_since start rung in
      conclude_signal start (run.interrupted (operation_timeout t.name t.config.duration elapsed))
        (record t' { clock = sleep run.runs_on t'.clock })

-- `execute`; `can_use_signals` is the answer of `_can_use_signals`.
unfoldable pub execute {ℓ} : {A : Type ℓ} → Bool → Run A → Timeout → Result A × Timeout
execute can_use_signals run t =
    let started = record t { clock = monotonic t.clock } in
    if t.config.use_signals && can_use_signals
    then execute_with_signal run started.clock.now started
    else execute_with_thread run started.clock.now started

-- Whether `asyncio.wait_for` can leave the coroutine alone when the time is over, since it is in a
-- shielded task.
abbrev pub is_shielded {ℓ} : {A : Type ℓ} → Config → Run A → Bool
is_shielded config run = not config.cancel_running_future && not run.holds

-- How the awaited object ends when the time is over: the shield is cancelled at once; a coroutine
-- is cancelled and ends as it will.
abbrev pub late_end {ℓ} : {A : Type ℓ} → Config → Run A → Result A
late_end config run =
    if is_shielded config run then raise cancelled_error else run.interrupted cancelled_error

abbrev pub late_time {ℓ} : {A : Type ℓ} → Config → Run A → ℕ
late_time config run = if is_shielded config run then 0 else run.runs_on

unfoldable pub is_cancelled : Exc → Bool
is_cancelled exc = is_instance exc (cancelled_error_class ∷ [])

-- `asyncio.wait_for` makes a `TimeoutError` of the cancellation, and gives any other end as it is.
unfoldable pub conclude_late {ℓ} : {A : Type ℓ} → ℕ → Result A → Timeout → Result A × Timeout
conclude_late start (ok a) t = succeed start a t
conclude_late start (raise exc) t =
    if is_cancelled exc then time_out start t else conclude start (raise exc) t

-- `asyncio.wait_for(awaitable, timeout=duration)` and its `try`.
unfoldable pub asyncio_wait_for {ℓ} : {A : Type ℓ} → ℕ → Run A → Timeout → Result A × Timeout
asyncio_wait_for start run t =
    if leb run.takes t.config.duration
    then conclude start run.result (record t { clock = sleep run.takes t.clock })
    else conclude_late start (late_end t.config run)
        (record t { clock = sleep (t.config.duration + late_time t.config run) t.clock })

-- `execute_async`
unfoldable pub execute_async {ℓ} : {A : Type ℓ} → Run A → Timeout → Result A × Timeout
execute_async run t =
    let started = record t { clock = monotonic t.clock } in
    asyncio_wait_for started.clock.now run started
