-- ===== src/Fallback/Decorator.antt =====
-- src/pysilience/fallback.py: the decorator, `__call__`, and `create_fallback`. Seconds are given in
-- ticks, `per_second` to a second.
use pysilience.Prelude.{ℕ, ◌<◌, ◌≡◌, refl, String, Bool, Option, none, some, List, [], ◌∷◌}
use pysilience.Python.{Exc, exception_class, Result, ok, and_then}
use pysilience.Core.Registry.{Key}
use pysilience.Core.Factory.{register_if}
use pysilience.Fallback.Handler.{Config, Fallback, post_init, init, execute, execute_async}

-- The decorator factory: the object that the decorated functions share. Its arguments have the
-- defaults below.
unfoldable pub fallback : Config → Option String → Result Fallback
fallback args name = and_then (post_init args) (λ config. ok (init config name))

-- `FallbackConfig()`
abbrev pub default_config : ℕ → Config
default_config _ = record { fallback_on = exception_class ∷ []; raise_on = [] }

-- `__call__`: the wrappers of a function and of a coroutine function. The arguments are of a type `P`.
unfoldable pub sync_wrapper {ℓ κ μ} :
    {P : Type μ} {A : Type ℓ} {W : Type κ}
    → (Exc → W → Result A × W)
    → (P → W → Result A × W)
    → P
    → Fallback
    → W
    → Result A × Fallback × W
sync_wrapper action func args f w = execute action (func args) f w

unfoldable pub async_wrapper {ℓ κ μ} :
    {P : Type μ} {A : Type ℓ} {W : Type κ}
    → (Exc → W → Result A × W)
    → (P → W → Result A × W)
    → P
    → Fallback
    → W
    → Result A × Fallback × W
async_wrapper action func args f w = execute_async action (func args) f w

-- `config or FallbackConfig()`
abbrev pub config_or : ℕ → Option Config → Config
config_or per_second none = default_config per_second
config_or per_second (some config) = config

-- `create_fallback`
unfoldable pub create_fallback {κ} :
    {I : Type κ}
    → (Fallback → I)
    → ℕ
    → Option Config
    → String
    → Bool
    → List (Key × I)
    → Result Fallback × List (Key × I)
create_fallback as_object per_second config name register d =
    register_if as_object register "fallback" name (init (config_or per_second config) (some name))
      d

-- The defaults of the decorator make the default configuration.
pub post_init-default_args_fallback :
    (per_second : ℕ)
    → 0 < per_second
    → post_init (default_config per_second) ≡ ok (default_config per_second)
unfolding post_init
post_init-default_args_fallback per_second h = refl
