-- ===== src/Timeout/Decorator.antt =====
-- src/pysilience/timeout.py: the decorator, `__call__`, and `create_timeout`. Seconds are given in
-- ticks, `per_second` to a second.
use pysilience.Prelude.{
  ℕ, ◌*◌, ◌<◌, ◌≡◌, String, Bool, true, false, Option, none, some, List, arith,
}
use pysilience.Python.{Result, ok, and_then, Clock, pos}
use pysilience.Core.Registry.{Key}
use pysilience.Core.Factory.{register_if}
use pysilience.Timeout.Config.{Config, Args, post_init}
use pysilience.Timeout.Limiter.{Timeout, Run, init, execute, execute_async}

-- The decorator factory: the object that the decorated functions share. Its arguments have the
-- defaults below.
unfoldable pub timeout : Args → Option String → Clock → Result Timeout
timeout args name clock = and_then (post_init args) (λ config. ok (init config name clock))

abbrev pub default_args : ℕ → Args
default_args per_second = record {
  duration = pos (30 * per_second);
  cancel_running_future = true;
  use_signals = false;
}

-- `TimeoutConfig()`
abbrev pub default_config : ℕ → Config
default_config per_second = record {
  duration = 30 * per_second;
  cancel_running_future = true;
  use_signals = false;
}

-- `__call__`: the wrappers of a function and of a coroutine function. The arguments are of a type `P`.
unfoldable pub sync_wrapper {ℓ κ} :
    {P : Type κ} {A : Type ℓ} → Bool → (P → Run A) → P → Timeout → Result A × Timeout
sync_wrapper can_use_signals func args t = execute can_use_signals (func args) t

unfoldable pub async_wrapper {ℓ κ} :
    {P : Type κ} {A : Type ℓ} → (P → Run A) → P → Timeout → Result A × Timeout
async_wrapper func args t = execute_async (func args) t

-- `config or TimeoutConfig()`
abbrev pub config_or : ℕ → Option Config → Config
config_or per_second none = default_config per_second
config_or per_second (some config) = config

-- `create_timeout`
unfoldable pub create_timeout {κ} :
    {I : Type κ}
    → (Timeout → I)
    → ℕ
    → Option Config
    → String
    → Bool
    → Clock
    → List (Key × I)
    → Result Timeout × List (Key × I)
create_timeout as_object per_second config name register clock d =
    register_if as_object register "timeout" name
      (init (config_or per_second config) (some name) clock) d

-- The defaults of the decorator make the default configuration.
pub post_init-default_args_timeout :
    (per_second : ℕ)
    → 0 < per_second
    → post_init (default_args per_second) ≡ ok (default_config per_second)
unfolding post_init
post_init-default_args_timeout per_second h = ground (arith, h)
