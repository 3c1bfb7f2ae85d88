-- ===== src/Timeout/Config.antt =====
-- src/pysilience/timeout.py: `TimeoutConfig` with its check, and the events.
use pysilience.Prelude.{ℕ, String, Bool, Option, if◌then◌else◌}
use pysilience.Python.{Exc, value_error, Result, ok, raise, ℤ, leb_ℤ, to_ℕ}

pub record Config : Type 0 where
  pub duration : ℕ
  pub cancel_running_future : Bool
  pub use_signals : Bool

-- The arguments of the dataclass, before `__post_init__`.
pub record Args : Type 0 where
  pub duration : ℤ
  pub cancel_running_future : Bool
  pub use_signals : Bool

-- `__post_init__`
unfoldable pub post_init : Args → Result Config
post_init a =
    if leb_ℤ a.duration 0
    then raise value_error
    else ok (record {
      duration = to_ℕ a.duration;
      cancel_running_future = a.cancel_running_future;
      use_signals = a.use_signals;
    })

pub data EventType : Type 0 where
  success timed_out error : EventType

pub record Event : Type 0 where
  pub event_type : EventType
  pub name : String
  pub duration_limit : ℕ
  pub elapsed : ℕ
  pub exception : Option Exc
