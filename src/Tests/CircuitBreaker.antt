-- ===== src/Tests/CircuitBreaker.antt =====
-- src/pysilience/circuitbreaker.py at concrete inputs.
use pysilience.Prelude.{
  ℕ, ◌+◌, ◌-◌, ◌≤◌, ◌<◌, ◌≡◌, refl, ◌⊎◌, true, false, none, some, [], ◌∷◌, ◌++◌, All, last, arith,
}
use pysilience.Python.{
  circuit_breaker_open, is_instance, is_exception, exception_class, Result, ok, raise, pos,
  monotonic, sleep,
}
use pysilience.CircuitBreaker.Config.{closed, opened, half_open, Config, Args, post_init, IsConfig}
use pysilience.CircuitBreaker.Breaker.{
  Breaker, init, reset, reject, acquire_in, acquire_permission, failures, window_record,
  record_closed, record_half_open, record_in, record_outcome, is_failure, is_ignored,
  emit_transitions, on_complete, finish, execute_with, execute,
}
use pysilience.CircuitBreaker.Window.{record_all, record_all-last}
use pysilience.CircuitBreaker.Invariant.{IsValid, IsSound}
use pysilience.CircuitBreaker.Admission.{execute-opened, trip-rejects}
use pysilience.CircuitBreaker.HalfOpen.{
  calls, run, Recovered, probes-Recovered, ignored_probes_block,
}
use pysilience.CircuitBreaker.Steps.{System, admit, complete, wait, Reach, here, next, start}
use pysilience.CircuitBreaker.Machine.{reachable-IsSound, reachable-probes}
use pysilience.Tests.Data.{boom, harmless, ignorable, clock}

program : Unit {0}
unfolding post_init init reset reject acquire_in acquire_permission window_record record_closed
    record_half_open record_in record_outcome is_failure is_ignored is_instance is_exception
    emit_transitions on_complete finish execute_with execute
program = tt

abbrev args : Args
args = record {
  threshold_num = pos 1;
  threshold_den = 2;
  sliding_window_size = pos 4;
  minimum_number_of_calls = pos 2;
  wait_duration_in_open_state = pos 10;
  permitted_number_of_calls_in_half_open_state = pos 2;
  record_exceptions = exception_class ∷ [];
  ignore_exceptions = ignorable ∷ [];
}

abbrev config : Config
config = record {
  failure_rate_threshold = record { num = 1; den = 2 };
  sliding_window_size = 4;
  minimum_number_of_calls = 2;
  wait_duration_in_open_state = 10;
  permitted_number_of_calls_in_half_open_state = 2;
  record_exceptions = exception_class ∷ [];
  ignore_exceptions = ignorable ∷ [];
}

abbrev fresh : Breaker
fresh = record {
  config = config;
  name = "api";
  clock = clock;
  state = closed;
  window = [];
  failure_count = 0;
  half_open_results = [];
  half_open_allowed = 0;
  opened_at = 0;
  events = [];
}

config-IsConfig : IsConfig config
config-IsConfig = omega arith

fresh-IsValid : IsValid fresh
fresh-IsValid = ground arith

abbrev failing : Breaker → Result ℕ × Breaker
failing c = (raise boom, c)

abbrev working : Breaker → Result ℕ × Breaker
working c = (ok 7, c)

init-fresh : init config (some "api") clock ≡ fresh
unfolding program
init-fresh = refl

-- Two failures open the circuit, at the first reading of the clock.
abbrev tripped : Breaker
tripped = (execute failing (execute failing fresh).1).1

tripped-opened : (tripped.state ≡ opened) × (tripped.opened_at ≡ 101)
unfolding program
tripped-opened = (refl, refl)

record_all-last_example :
    let xs = false ∷ true ∷ true ∷ false ∷ false ∷ [] in
    ((record_all xs fresh).window ≡ last 4 ([] ++ xs))
    × ((record_all xs fresh).failure_count ≡ failures (record_all xs fresh).window)
record_all-last_example =
    record_all-last (false ∷ true ∷ true ∷ false ∷ false ∷ []) [] fresh (omega arith) refl refl

abbrev open_breaker : Breaker
open_breaker = record fresh { state = opened; opened_at = 95 }

open_breaker-IsValid : IsValid open_breaker
open_breaker-IsValid = ground arith

execute-opened_example :
    ((105 ≤ 101) × ((acquire_permission open_breaker).1.state ≡ half_open))
    ⊎ ((101 < 105)
        × (execute working open_breaker
            ≡ (raise (circuit_breaker_open "api" (some 4)), (acquire_permission open_breaker).1))
        × ((acquire_permission open_breaker).1.state ≡ opened))
execute-opened_example = execute-opened working open_breaker open_breaker-IsValid refl

-- One failure short of the threshold.
abbrev shaky : Breaker
shaky = record fresh { window = false ∷ []; failure_count = 1 }

boom-counts : (is_ignored config (some boom) ≡ false) × (is_failure config (some boom) ≡ true)
unfolding program
boom-counts = (refl, refl)

shaky-after : on_complete closed (some boom) shaky ≡ record (on_complete closed (some boom) shaky) {
  state = opened;
  opened_at = 101;
  clock = record { now = 101; delays = 2 ∷ 3 ∷ [] };
}
unfolding program
shaky-after = refl

trip-rejects_example :
    let after = on_complete closed (some boom) shaky in
    let now = (monotonic after.clock).now in
    (after.state ≡ opened)
    × (((monotonic shaky.clock).now + 10 ≤ now)
        ⊎ ((execute working after).0
            ≡ raise (circuit_breaker_open "api" (some ((monotonic shaky.clock).now + 10 - now)))))
unfolding window_record
trip-rejects_example = trip-rejects working boom shaky refl boom-counts.0 boom-counts.1 refl

abbrev probing : Breaker
probing = record fresh { state = half_open; half_open_allowed = 2 }

probes-Recovered_example : Recovered (calls {A = ℕ} 2 (ok 7) probing)
probes-Recovered_example = probes-Recovered 1 7 probing (record {
  in_half_open = refl;
  left = refl;
  all_good = refl;
  planned = refl;
  threshold_pos = omega arith;
})

harmless-ignored : is_ignored config (some harmless) ≡ true
unfolding program
harmless-ignored = refl

ignored_probes_block_example :
    All
      (λ r. r ≡ raise (circuit_breaker_open "api" none))
      (run (working ∷ failing ∷ working ∷ []) (calls {A = ℕ} 2 (raise harmless) probing))
ignored_probes_block_example =
    ignored_probes_block 2 harmless probing (working ∷ failing ∷ working ∷ []) refl refl
      harmless-ignored

-- A call is admitted to the new object and fails.
abbrev admitted : System
admitted = record { breaker = fresh; running = closed ∷ []; admitted = 0 }

abbrev failed_once : System
failed_once = record { breaker = on_complete closed (some boom) fresh; running = []; admitted = 0 }

failed_once-Reach : Reach (start config (some "api") clock) failed_once
unfolding program
failed_once-Reach = next (next here (admit closed [] refl)) (complete [] [] closed (some boom) refl)

reachable-IsSound_example : IsSound (on_complete closed (some boom) fresh)
reachable-IsSound_example =
    reachable-IsSound config (some "api") clock {s = failed_once} config-IsConfig failed_once-Reach

-- Two calls fail, the wait passes, and the next call is a probe.
abbrev twice_failed : Breaker
twice_failed = on_complete closed (some boom) (on_complete closed (some boom) fresh)

abbrev waited : Breaker
waited = record twice_failed { clock = sleep 10 twice_failed.clock }

abbrev probed : System
probed = record {
  breaker = emit_transitions ((opened, half_open) ∷ []) (acquire_permission waited).1;
  running = half_open ∷ [];
  admitted = 1;
}

probed-Reach : Reach (start config (some "api") clock) probed
unfolding program
probed-Reach =
    next
      (next
        (next
          (next (next (next here (admit closed [] refl)) (admit closed [] refl))
            (complete [] (closed ∷ []) closed (some boom) refl))
          (complete [] [] closed (some boom) refl))
        (wait 10))
      (admit half_open ((opened, half_open) ∷ []) refl)

probed-half_open : probed.breaker.state ≡ half_open
unfolding program
probed-half_open = refl

reachable-probes_example :
    (1 ≤ probed.breaker.config.permitted_number_of_calls_in_half_open_state)
    × (1 + probed.breaker.half_open_allowed
        ≡ probed.breaker.config.permitted_number_of_calls_in_half_open_state)
reachable-probes_example =
    reachable-probes config (some "api") clock {s = probed} config-IsConfig probed-Reach
      probed-half_open
