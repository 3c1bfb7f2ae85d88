-- ===== src/Timeout/Resources.antt =====
-- src/pysilience/timeout.py: what `class Timeout` holds besides the calls: its executor and the tasks
-- that run on after their callers were told that they are too late. Executors and tasks are known
-- by their identity; `closed` are the executors that were shut down.
use native.Mathlib.Decide.{ℕ_discrete}
use pysilience.Prelude.{
  ℕ, Bool, true, false, ◌&&◌, Option, none, some, List, [], String, if◌then◌else◌,
}
use pysilience.Python.{runtime_error, Result, ok, raise, Clock, monotonic}
use pysilience.Python.Sets.{contains, discard, add}
use pysilience.Timeout.Config.{Config}
use pysilience.Timeout.Limiter.{Timeout, Run}
use pysilience.Timeout.Limiter.{init as limiter_init}
use pysilience.Timeout.Limiter.{execute as limiter_execute, execute_async as limiter_execute_async}

pub record Resources : Type 0 where
  pub timeout : Timeout
  pub background_tasks : List ℕ
  pub owns_executor : Bool
  pub executor : ℕ

-- `_DEFAULT_EXECUTOR`
abbrev pub default_executor : ℕ
default_executor = 0

-- `__init__`
unfoldable pub init : Config → Option String → Option ℕ → Clock → Resources
init config name none clock = record {
  timeout = limiter_init config name clock;
  background_tasks = [];
  owns_executor = false;
  executor = default_executor;
}
init config name (some executor) clock = record {
  timeout = limiter_init config name clock;
  background_tasks = [];
  owns_executor = true;
  executor = executor;
}

-- `shutdown`, with the executors that are closed.
unfoldable pub shutdown : Resources → List ℕ → Resources × List ℕ
shutdown t closed =
    if t.owns_executor
    then (record t { owns_executor = false }, add ℕ_discrete t.executor closed)
    else (t, closed)

-- `_executor.submit(func)`: an executor that was shut down raises `RuntimeError`.
unfoldable pub submit : ℕ → List ℕ → Result (Unit {0})
submit executor closed = if contains ℕ_discrete executor closed then raise runtime_error else ok tt

-- A method of the object as far as calls are concerned.
abbrev pub on_timeout {ℓ} :
    {A : Type ℓ} → (Timeout → Result A × Timeout) → Resources → Result A × Resources
on_timeout method t = let (r, timeout) = method t.timeout in (r, record t { timeout = timeout })

-- `_execute_with_thread` after the start was read: `submit` stands outside of its `try`.
unfoldable pub submitted {ℓ} :
    {A : Type ℓ} → Result (Unit {0}) → Run A → Timeout → Result A × Timeout
submitted (ok _) run t = limiter_execute false run t
submitted (raise exc) run t = (raise exc, record t { clock = monotonic t.clock })

-- `execute`, with the executors that are closed.
unfoldable pub execute {ℓ} : {A : Type ℓ} → Bool → Run A → List ℕ → Resources → Result A × Resources
execute can_use_signals run closed t =
    if t.timeout.config.use_signals && can_use_signals
    then on_timeout (limiter_execute true run) t
    else on_timeout (submitted (submit t.executor closed) run) t

-- The task that `execute_async` makes, unless the coroutine is to be cancelled.
unfoldable pub create_task : ℕ → Resources → Resources
create_task task t =
    if t.timeout.config.cancel_running_future
    then t
    else record t { background_tasks = add ℕ_discrete task t.background_tasks }

-- `execute_async`; `task` is the identity of a new task.
unfoldable pub execute_async {ℓ} : {A : Type ℓ} → ℕ → Run A → Resources → Result A × Resources
execute_async task run t = on_timeout (limiter_execute_async run) (create_task task t)

-- `_on_background_task_done`; the exception of the task is read and dropped.
unfoldable pub on_background_task_done : ℕ → Resources → Resources
on_background_task_done task t = record t {
  background_tasks = discard ℕ_discrete task t.background_tasks;
}
