-- ===== src/Tests/Timeout.antt =====
-- src/pysilience/timeout.py at concrete inputs.
use native.Mathlib.Decide.{ℕ_discrete}
use pysilience.Prelude.{ℕ, ◌≡◌, ◌≢◌, refl, ◌⊎◌, true, false, none, some, [], ◌∷◌}
use pysilience.Python.{
  Exc, other, exception_class, base_exception_class, timeout_error_class, operation_timeout,
  is_instance, is_exception, ok, raise, runtime_error,
}
use pysilience.Timeout.Limiter.{
  Timeout, Run, time_out, succeed, fail, is_timeout_error, conclude, wait_for, is_cancelled,
  conclude_late, asyncio_wait_for, conclude_signal, execute_with_signal, execute_with_thread,
  execute, execute_async,
}
use pysilience.Python.Sets.{contains, count}
use pysilience.Timeout.Resources.{Resources, init, shutdown, create_task, on_background_task_done}
use pysilience.Timeout.Resources.{execute as resources_execute}
use pysilience.Timeout.Background.{
  System, Reach, start, shielded, finished, called_back, here, next, IsTracked, reachable-IsTracked,
}
use pysilience.Timeout.Shutdown.{shutdown-execute}
use pysilience.Tests.Data.{clock}

program : Unit {0}
unfolding is_instance is_exception time_out succeed fail is_timeout_error conclude wait_for
    is_cancelled conclude_late asyncio_wait_for conclude_signal execute_with_signal
    execute_with_thread execute execute_async
program = tt

abbrev limited : Timeout
limited = record {
  config = record { duration = 10; cancel_running_future = true; use_signals = true };
  name = "api";
  clock = clock;
  events = [];
}

-- A call of twelve ticks, which hides the exception of the handler.
abbrev stubborn : Run ℕ
stubborn = record {
  takes = 12;
  result = ok 7;
  interrupted = λ exc. ok 8;
  runs_on = 1;
  holds = false;
}

-- One that is cancelled.
abbrev patient : Run ℕ
patient = record stubborn { interrupted = λ exc. raise exc }

-- A call that soon ends in a timeout error of its own, such as one of a socket.
abbrev own_timeout : Exc
own_timeout = other (timeout_error_class ∷ exception_class ∷ base_exception_class ∷ []) 1

abbrev quick : Run ℕ
quick = record {
  takes = 2;
  result = raise own_timeout;
  interrupted = λ exc. raise exc;
  runs_on = 0;
  holds = false;
}

thread-late : (execute false stubborn limited).0 ≡ raise (operation_timeout "api" 10 15)
unfolding program
thread-late = refl

signal-hidden : (execute true stubborn limited).0 ≡ ok 8
unfolding program
signal-hidden = refl

quick-reported : (execute_async quick limited).0 ≡ raise (operation_timeout "api" 10 7)
unfolding program
quick-reported = refl

-- Late coroutines: one that gives in to its cancellation, one that does not, and the latter shielded.
patient-late : (execute_async patient limited).0 ≡ raise (operation_timeout "api" 10 16)
unfolding program
patient-late = refl

stubborn-returned : (execute_async stubborn limited).0 ≡ ok 8
unfolding program
stubborn-returned = refl

abbrev shielding : Timeout
shielding = record limited { config = record (limited.config) { cancel_running_future = false } }

stubborn-shielded : (execute_async stubborn shielding).0 ≡ raise (operation_timeout "api" 10 15)
unfolding program
stubborn-shielded = refl

-- Two tasks are made, the first ends, the object is shut down, and the callback of the first runs.
abbrev started : System
started =
    start (record { duration = 10; cancel_running_future = false; use_signals = false }) none
      (some 7) clock

abbrev two_made : System
two_made =
    let one : System = record started {
      resources = create_task 1 started.resources;
      running = 1 ∷ [];
    } in
    record one { resources = create_task 2 one.resources; running = 2 ∷ 1 ∷ [] }

abbrev one_ended : System
one_ended = record two_made { running = 2 ∷ []; ended = 1 ∷ [] }

abbrev all_told : System
all_told = record one_ended {
  resources = on_background_task_done 1 one_ended.resources;
  ended = [];
}

reached : Reach started all_told
unfolding create_task init count pysilience.Timeout.Limiter.init ℕ_discrete
reached =
    next
      (next (next (next here (shielded 1 refl refl)) (shielded 2 refl refl))
        (finished (2 ∷ []) [] 1 refl))
      (called_back [] [] 1 refl)

reachable-IsTracked_example : IsTracked all_told
reachable-IsTracked_example =
    reachable-IsTracked
      (record { duration = 10; cancel_running_future = false; use_signals = false }) none (some 7)
      clock reached

abbrev owner : Resources
owner = record { timeout = limited; background_tasks = []; owns_executor = true; executor = 7 }

shutdown-execute_example :
    let (t', closed') = shutdown owner (3 ∷ []) in
    let (answer, t'') = resources_execute false quick closed' t' in
    ((true ≡ false) × (t' ≡ owner) × (closed' ≡ 3 ∷ []))
    ⊎ ((true ≡ true)
        × (contains ℕ_discrete 7 closed' ≡ true)
        × ((e : ℕ) → e ≢ 7 → contains ℕ_discrete e closed' ≡ contains ℕ_discrete e (3 ∷ []))
        × (shutdown t' closed' ≡ (t', closed'))
        × (((false ≡ true) × (answer ≡ (execute true quick limited).0))
            ⊎ ((false ≡ false)
                × (answer ≡ raise runtime_error)
                × (t''.timeout.events ≡ limited.events))))
shutdown-execute_example = shutdown-execute false quick (3 ∷ []) owner
