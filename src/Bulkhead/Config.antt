-- ===== src/Bulkhead/Config.antt =====
-- src/pysilience/bulkhead.py: `BulkheadConfig` with its checks, and the events.
use pysilience.Prelude.{ℕ, ◌<◌, ◌≡◌, ◌↔◌, String, Option, if◌then◌else◌, arith}
use pysilience.Python.{Exc, value_error, Result, ok, raise, ℤ, pos, ltb_ℤ, to_ℕ}

pub record Config : Type 0 where
  pub max_concurrent : ℕ
  pub max_wait : ℕ

-- The arguments of the dataclass, before `__post_init__`.
pub record Args : Type 0 where
  pub max_concurrent : ℤ
  pub max_wait : ℤ

-- `__post_init__`
unfoldable pub post_init : Args → Result Config
post_init a =
    if ltb_ℤ a.max_concurrent 1
    then raise value_error
    else if ltb_ℤ a.max_wait 0
    then raise value_error
    else ok (record { max_concurrent = to_ℕ a.max_concurrent; max_wait = to_ℕ a.max_wait })

pub record IsConfig (c : Config) : Type 0 where
  pub concurrent_pos : 0 < c.max_concurrent

abbrev pub args_of : Config → Args
args_of c = record { max_concurrent = pos c.max_concurrent; max_wait = pos c.max_wait }

-- The checks pass exactly the arguments of a valid configuration, and build that configuration.
pub bulkhead-post_init_accepts :
    (a : Args) (c : Config) → (post_init a ≡ ok c) ↔ ((a ≡ args_of c) × IsConfig c)
unfolding post_init
bulkhead-post_init_accepts a c = (λ h. (ground arith, ground arith), λ h. ground arith)

pub data EventType : Type 0 where
  success rejected error : EventType

pub record Event : Type 0 where
  pub event_type : EventType
  pub name : String
  pub max_concurrent : ℕ
  pub exception : Option Exc
