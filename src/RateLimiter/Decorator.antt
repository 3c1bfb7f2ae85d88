-- ===== src/RateLimiter/Decorator.antt =====
-- src/pysilience/ratelimiter.py: the decorator, `__call__`, and `create_rate_limiter`. Seconds are given in
-- ticks, `per_second` to a second.
use pysilience.Prelude.{ℕ, ◌*◌, ◌/◌, ◌≤◌, ◌≡◌, String, Bool, Option, none, some, List, arith}
use pysilience.Python.{Result, ok, and_then, Clock, pos}
use pysilience.Core.Registry.{Key}
use pysilience.Core.Factory.{register_if}
use pysilience.RateLimiter.Config.{Config, Args, Algorithm, post_init}
use pysilience.RateLimiter.Limiter.{RateLimiter, init, execute, execute_async}

-- The decorator factory: the object that the decorated functions share. Its arguments have the
-- defaults below.
unfoldable pub rate_limiter : Args → Option String → Clock → Result RateLimiter
rate_limiter args name clock = and_then (post_init args) (λ config. ok (init config name clock))

abbrev pub default_args : ℕ → Args
default_args per_second = record {
  limit_for_period = pos 50;
  limit_refresh_period = pos (per_second / 2);
  timeout_duration = pos (5 * per_second);
  algorithm = Algorithm.token_bucket;
}

-- `RateLimiterConfig()`
abbrev pub default_config : ℕ → Config
default_config per_second = record {
  limit_for_period = 50;
  limit_refresh_period = per_second / 2;
  timeout_duration = 5 * per_second;
  algorithm = Algorithm.token_bucket;
}

-- `__call__`: the wrappers of a function and of a coroutine function. The arguments are of a type `P`.
unfoldable pub sync_wrapper {ℓ κ} :
    {P : Type κ} {A : Type ℓ}
    → List (RateLimiter → RateLimiter)
    → (P → RateLimiter → Result A × RateLimiter)
    → P
    → RateLimiter
    → Option (Result A) × RateLimiter
sync_wrapper wakeups func args l = execute wakeups (func args) l

unfoldable pub async_wrapper {ℓ κ} :
    {P : Type κ} {A : Type ℓ}
    → List (RateLimiter → RateLimiter)
    → (P → RateLimiter → Result A × RateLimiter)
    → P
    → RateLimiter
    → Option (Result A) × RateLimiter
async_wrapper wakeups func args l = execute_async wakeups (func args) l

-- `config or RateLimiterConfig()`
abbrev pub config_or : ℕ → Option Config → Config
config_or per_second none = default_config per_second
config_or per_second (some config) = config

-- `create_rate_limiter`
unfoldable pub create_rate_limiter {κ} :
    {I : Type κ}
    → (RateLimiter → I)
    → ℕ
    → Option Config
    → String
    → Bool
    → Clock
    → List (Key × I)
    → Result RateLimiter × List (Key × I)
create_rate_limiter as_object per_second config name register clock d =
    register_if as_object register "ratelimiter" name
      (init (config_or per_second config) (some name) clock) d

-- The defaults of the decorator make the default configuration.
pub post_init-default_args_rate_limiter :
    (per_second : ℕ)
    → 2 ≤ per_second
    → post_init (default_args per_second) ≡ ok (default_config per_second)
unfolding post_init
post_init-default_args_rate_limiter per_second h = ground (arith, h)
