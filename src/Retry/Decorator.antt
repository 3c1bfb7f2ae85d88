-- ===== src/Retry/Decorator.antt =====
-- src/pysilience/retry.py: the decorator, `__call__`, and `create_retry`. Seconds are given in
-- ticks, `per_second` to a second.
use pysilience.Prelude.{ℕ, ◌<◌, ◌≡◌, refl, String, Bool, false, Option, none, some, List, [], ◌∷◌}
use pysilience.Python.{exception_class, Result, ok, and_then, pos}
use pysilience.Core.Registry.{Key}
use pysilience.Core.Factory.{register_if}
use pysilience.Retry.Config.{Config, Args, post_init}
use pysilience.Retry.Loop.{Platform, Retry, init, execute, execute_async}

-- The decorator factory: the object that the decorated functions share. Its arguments have the
-- defaults below.
unfoldable pub retry : Args → Option String → Result Retry
retry args name = and_then (post_init args) (λ config. ok (init config name))

abbrev pub default_args : ℕ → Args
default_args _ = record {
  max_attempts = pos 3;
  initial_interval = pos 0;
  multiplier_num = pos 2;
  multiplier_den = 1;
  max_interval = none;
  jitter = false;
  jitter_num = pos 1;
  jitter_den = 10;
  retry_on = exception_class ∷ [];
  abort_on = [];
}

-- `RetryConfig()`
abbrev pub default_config : ℕ → Config
default_config _ = record {
  max_attempts = 3;
  initial_interval = 0;
  multiplier = record { num = 2; den = 1 };
  max_interval = none;
  jitter = false;
  jitter_ratio = record { num = 1; den = 10 };
  retry_on = exception_class ∷ [];
  abort_on = [];
}

-- `__call__`: the wrappers of a function and of a coroutine function. The arguments are of a type `P`.
unfoldable pub sync_wrapper {ℓ κ μ} :
    {P : Type μ} {A : Type ℓ} {W : Type κ}
    → Platform
    → (P → W → Result A × W)
    → P
    → Retry
    → W
    → Result A × Retry × W
sync_wrapper platform func args r w = execute platform (func args) r w

unfoldable pub async_wrapper {ℓ κ μ} :
    {P : Type μ} {A : Type ℓ} {W : Type κ}
    → Platform
    → (P → W → Result A × W)
    → P
    → Retry
    → W
    → Result A × Retry × W
async_wrapper platform func args r w = execute_async platform (func args) r w

-- `config or RetryConfig()`
abbrev pub config_or : ℕ → Option Config → Config
config_or per_second none = default_config per_second
config_or per_second (some config) = config

-- `create_retry`
unfoldable pub create_retry {κ} :
    {I : Type κ}
    → (Retry → I)
    → ℕ
    → Option Config
    → String
    → Bool
    → List (Key × I)
    → Result Retry × List (Key × I)
create_retry as_object per_second config name register d =
    register_if as_object register "retry" name (init (config_or per_second config) (some name)) d

-- The defaults of the decorator make the default configuration.
pub post_init-default_args_retry :
    (per_second : ℕ)
    → 0 < per_second
    → post_init (default_args per_second) ≡ ok (default_config per_second)
unfolding post_init
post_init-default_args_retry per_second h = refl
