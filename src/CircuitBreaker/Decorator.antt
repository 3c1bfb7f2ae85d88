-- ===== src/CircuitBreaker/Decorator.antt =====
-- src/pysilience/circuitbreaker.py: the decorator, `__call__`, and `create_circuit_breaker`. Seconds are given in
-- ticks, `per_second` to a second.
use pysilience.Prelude.{ℕ, ◌*◌, ◌<◌, ◌≡◌, String, Bool, Option, none, some, List, [], ◌∷◌, arith}
use pysilience.Python.{exception_class, Result, ok, and_then, Clock, pos}
use pysilience.Core.Registry.{Key}
use pysilience.Core.Factory.{register_if}
use pysilience.CircuitBreaker.Config.{Config, Args, post_init}
use pysilience.CircuitBreaker.Breaker.{Breaker, init, execute, execute_async}

-- The decorator factory: the object that the decorated functions share. Its arguments have the
-- defaults below.
unfoldable pub circuit_breaker : Args → Option String → Clock → Result Breaker
circuit_breaker args name clock = and_then (post_init args) (λ config. ok (init config name clock))

abbrev pub default_args : ℕ → Args
default_args per_second = record {
  threshold_num = pos 1;
  threshold_den = 2;
  sliding_window_size = pos 10;
  minimum_number_of_calls = pos 5;
  wait_duration_in_open_state = pos (60 * per_second);
  permitted_number_of_calls_in_half_open_state = pos 5;
  record_exceptions = exception_class ∷ [];
  ignore_exceptions = [];
}

-- `CircuitBreakerConfig()`
abbrev pub default_config : ℕ → Config
default_config per_second = record {
  failure_rate_threshold = record { num = 1; den = 2 };
  sliding_window_size = 10;
  minimum_number_of_calls = 5;
  wait_duration_in_open_state = 60 * per_second;
  permitted_number_of_calls_in_half_open_state = 5;
  record_exceptions = exception_class ∷ [];
  ignore_exceptions = [];
}

-- `__call__`: the wrappers of a function and of a coroutine function. The arguments are of a type `P`.
unfoldable pub sync_wrapper {ℓ κ} :
    {P : Type κ} {A : Type ℓ}
    → (P → Breaker → Result A × Breaker)
    → P
    → Breaker
    → Result A × Breaker
sync_wrapper func args b = execute (func args) b

unfoldable pub async_wrapper {ℓ κ} :
    {P : Type κ} {A : Type ℓ}
    → (P → Breaker → Result A × Breaker)
    → P
    → Breaker
    → Result A × Breaker
async_wrapper func args b = execute_async (func args) b

-- `config or CircuitBreakerConfig()`
abbrev pub config_or : ℕ → Option Config → Config
config_or per_second none = default_config per_second
config_or per_second (some config) = config

-- `create_circuit_breaker`
unfoldable pub create_circuit_breaker {κ} :
    {I : Type κ}
    → (Breaker → I)
    → ℕ
    → Option Config
    → String
    → Bool
    → Clock
    → List (Key × I)
    → Result Breaker × List (Key × I)
create_circuit_breaker as_object per_second config name register clock d =
    register_if as_object register "circuitbreaker" name
      (init (config_or per_second config) (some name) clock) d

-- The defaults of the decorator make the default configuration.
pub post_init-default_args_circuit_breaker :
    (per_second : ℕ)
    → 0 < per_second
    → post_init (default_args per_second) ≡ ok (default_config per_second)
unfolding post_init
post_init-default_args_circuit_breaker per_second h = ground (arith, h)
