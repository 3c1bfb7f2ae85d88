-- ===== src/Bulkhead/Decorator.antt =====
-- src/pysilience/bulkhead.py: the decorator, `__call__`, and `create_bulkhead`. Seconds are given in
-- ticks, `per_second` to a second.
use pysilience.Prelude.{ℕ, ◌<◌, ◌≡◌, refl, String, Bool, Option, none, some, List}
use pysilience.Python.{Result, ok, and_then, Clock, pos}
use pysilience.Core.Registry.{Key}
use pysilience.Core.Factory.{register_if}
use pysilience.Bulkhead.Config.{Config, Args, post_init}
use pysilience.Bulkhead.Permits.{Bulkhead, init, execute, execute_async}

-- The decorator factory: the object that the decorated functions share. Its arguments have the
-- defaults below.
unfoldable pub bulkhead : Args → Option String → Clock → Result Bulkhead
bulkhead args name clock = and_then (post_init args) (λ config. ok (init config name clock))

abbrev pub default_args : ℕ → Args
default_args _ = record { max_concurrent = pos 10; max_wait = pos 0 }

-- `BulkheadConfig()`
abbrev pub default_config : ℕ → Config
default_config _ = record { max_concurrent = 10; max_wait = 0 }

-- `__call__`: the wrappers of a function and of a coroutine function. The arguments are of a type `P`.
unfoldable pub sync_wrapper {ℓ κ} :
    {P : Type κ} {A : Type ℓ}
    → List (Bulkhead → Bulkhead)
    → (P → Bulkhead → Result A × Bulkhead)
    → P
    → Bulkhead
    → Result A × Bulkhead
sync_wrapper wakeups func args b = execute wakeups (func args) b

unfoldable pub async_wrapper {ℓ κ} :
    {P : Type κ} {A : Type ℓ}
    → List (Bulkhead → Bulkhead)
    → (P → Bulkhead → Result A × Bulkhead)
    → P
    → Bulkhead
    → Option (Result A) × Bulkhead
async_wrapper wakeups func args b = execute_async wakeups (func args) b

-- `config or BulkheadConfig()`
abbrev pub config_or : ℕ → Option Config → Config
config_or per_second none = default_config per_second
config_or per_second (some config) = config

-- `create_bulkhead`
unfoldable pub create_bulkhead {κ} :
    {I : Type κ}
    → (Bulkhead → I)
    → ℕ
    → Option Config
    → String
    → Bool
    → Clock
    → List (Key × I)
    → Result Bulkhead × List (Key × I)
create_bulkhead as_object per_second config name register clock d =
    register_if as_object register "bulkhead" name
      (init (config_or per_second config) (some name) clock) d

-- The defaults of the decorator make the default configuration.
pub post_init-default_args_bulkhead :
    (per_second : ℕ)
    → 0 < per_second
    → post_init (default_args per_second) ≡ ok (default_config per_second)
unfolding post_init
post_init-default_args_bulkhead per_second h = refl
