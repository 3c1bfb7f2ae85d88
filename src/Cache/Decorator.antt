-- ===== src/Cache/Decorator.antt =====
-- src/pysilience/cache.py: the decorator, `__call__`, the keys that it makes of arguments, and
-- `create_cache`.
use Prim.Native.Nat.{Ordering}
use Prim.Native.String.{compare}
use pysilience.Prelude.{◌≡◌, refl, String, Bool, Option, none, some, List, [], ◌∷◌, ◌++◌}
use pysilience.Python.{Result, ok, and_then, Clock, pos}
use pysilience.Core.Registry.{Key}
use pysilience.Core.Factory.{register_if}
use pysilience.Cache.Config.{Config, Args, post_init, CacheBackend}
use pysilience.Cache.Memory.{Memory}
use pysilience.Cache.Memory.{init as memory_init}
use pysilience.Cache.Coordination.{Cache, init, execute}
use pysilience.Cache.Async.{execute_async_memory, execute_async_remote}

-- `sorted(kwargs.items())`: the names are distinct, so the values are not compared.
module _ {ℓ} {V : Type ℓ} where
  abbrev insert : String × V → List (String × V) → List (String × V)
  insert item [] = item ∷ []
  insert item (other ∷ items) =
      let rest = insert item items in
      elim (compare item.0 other.0) [ Ordering.gt ↦ other ∷ rest | _ ↦ item ∷ other ∷ items ]

  unfoldable pub sorted : List (String × V) → List (String × V)
  sorted [] = []
  sorted (item ∷ items) = insert item (sorted items)

  -- `_make_key`, where `tuple_of` makes a value of a tuple of pairs.
  unfoldable pub make_key : (List (String × V) → V) → List V → List (String × V) → List V
  make_key tuple_of args [] = args
  make_key tuple_of args (item ∷ items) = args ++ (tuple_of (sorted (item ∷ items)) ∷ [])

  -- A call with keyword arguments has the key of a call that passes their sorted tuple as one more
  -- positional argument.
  pub make_key-tuple :
      (tuple_of : List (String × V) → V) (args : List V) (item : String × V)
      (items : List (String × V))
      → make_key tuple_of args (item ∷ items)
        ≡ make_key tuple_of (args ++ (tuple_of (sorted (item ∷ items)) ∷ [])) []
  unfolding make_key
  make_key-tuple tuple_of args item items = refl

-- The decorator factory: the object that the decorated functions share, with the backend that was
-- given or made. Its arguments have the defaults below.
unfoldable pub cache {ℓ} : {K B : Type ℓ} → Args → Option String → B → Result (Cache K B)
cache args name backend = and_then (post_init args) (λ config. ok (init config name backend))

abbrev pub default_args : Args
default_args = record { max_size = pos 128; ttl = none }

-- `CacheConfig()`
abbrev pub default_config : Config
default_config = record { max_size = 128; ttl = none }

-- The `MemoryBackend` that `__init__` makes.
unfoldable pub make_backend {ℓ} : {K V : Type ℓ} → Config → Clock → Memory K V
make_backend config clock = memory_init config.max_size config.ttl clock

-- `__call__`: the wrappers of a function and of a coroutine function. Arguments and results are of
-- types `A` and `V`, and keys are lists of arguments.
module _ {ℓ} {A V B : Type ℓ} (dec : Discrete (List A)) (ops : CacheBackend (List A) V B)
    (tuple_of : List (String × A) → A) where
  unfoldable pub sync_wrapper :
      List (Cache (List A) B → Cache (List A) B)
      → (List A → List (String × A) → Cache (List A) B → Result V × Cache (List A) B)
      → List A
      → List (String × A)
      → Cache (List A) B
      → Option (Result V) × Cache (List A) B
  sync_wrapper wakeups func args kwargs c =
      execute dec ops wakeups (make_key tuple_of args kwargs) (func args kwargs) c

  -- Over a `MemoryBackend`.
  unfoldable pub async_wrapper :
      List (Cache (List A) B → Cache (List A) B)
      → (List A → List (String × A) → Cache (List A) B → Result V × Cache (List A) B)
      → List A
      → List (String × A)
      → Cache (List A) B
      → Option (Result V) × Cache (List A) B
  async_wrapper wakeups func args kwargs c =
      execute_async_memory dec ops wakeups (make_key tuple_of args kwargs) (func args kwargs) c

  -- Over any other backend, whose `aget` and `aput` may wait.
  unfoldable pub async_wrapper_remote :
      (Cache (List A) B → Cache (List A) B)
      → (Cache (List A) B → Cache (List A) B)
      → List ((Cache (List A) B → Cache (List A) B) × (Cache (List A) B → Cache (List A) B))
      → (List A → List (String × A) → Cache (List A) B → Result V × Cache (List A) B)
      → List A
      → List (String × A)
      → Cache (List A) B
      → Option (Result V) × Cache (List A) B
  async_wrapper_remote meanwhile storing wakeups func args kwargs c =
      execute_async_remote dec ops meanwhile storing wakeups (make_key tuple_of args kwargs)
        (func args kwargs) c

-- `config or CacheConfig()`
abbrev pub config_or : Option Config → Config
config_or none = default_config
config_or (some config) = config

-- `create_cache`, with the backend that was given or made.
unfoldable pub create_cache {ℓ κ} :
    {K B : Type ℓ} {I : Type κ}
    → (Cache K B → I)
    → Option Config
    → String
    → Bool
    → B
    → List (Key × I)
    → Result (Cache K B) × List (Key × I)
create_cache as_object config name register backend d =
    register_if as_object register "cache" name (init (config_or config) (some name) backend) d

-- The defaults of the decorator make the default configuration.
pub post_init-default_args_cache : post_init default_args ≡ ok default_config
unfolding post_init
post_init-default_args_cache = refl
