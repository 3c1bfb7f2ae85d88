-- ===== src/RateLimiter/Config.antt =====
-- src/pysilience/ratelimiter.py: `RateLimitAlgorithm`, `RateLimiterConfig` with its checks, and the
-- events.
use pysilience.Prelude.{ℕ, ◌<◌, ◌≡◌, ◌↔◌, String, Option, if◌then◌else◌, arith}
use pysilience.Python.{Exc, value_error, Result, ok, raise, Quotient, ℤ, pos, ltb_ℤ, leb_ℤ, to_ℕ}

pub data Algorithm : Type 0 where
  token_bucket leaky_bucket fixed_window sliding_window : Algorithm

pub record Config : Type 0 where
  pub limit_for_period : ℕ
  pub limit_refresh_period : ℕ
  pub timeout_duration : ℕ
  pub algorithm : Algorithm

-- The arguments of the dataclass, before `__post_init__`.
pub record Args : Type 0 where
  pub limit_for_period : ℤ
  pub limit_refresh_period : ℤ
  pub timeout_duration : ℤ
  pub algorithm : Algorithm

-- `__post_init__`
unfoldable pub post_init : Args → Result Config
post_init a =
    if ltb_ℤ a.limit_for_period 1
    then raise value_error
    else if leb_ℤ a.limit_refresh_period 0
    then raise value_error
    else if ltb_ℤ a.timeout_duration 0
    then raise value_error
    else ok (record {
      limit_for_period = to_ℕ a.limit_for_period;
      limit_refresh_period = to_ℕ a.limit_refresh_period;
      timeout_duration = to_ℕ a.timeout_duration;
      algorithm = a.algorithm;
    })

pub record IsConfig (c : Config) : Type 0 where
  pub limit_pos : 0 < c.limit_for_period
  pub period_pos : 0 < c.limit_refresh_period

abbrev pub args_of : Config → Args
args_of c = record {
  limit_for_period = pos c.limit_for_period;
  limit_refresh_period = pos c.limit_refresh_period;
  timeout_duration = pos c.timeout_duration;
  algorithm = c.algorithm;
}

-- The checks pass exactly the arguments of a valid configuration, and build that configuration.
pub ratelimiter-post_init_accepts :
    (a : Args) (c : Config) → (post_init a ≡ ok c) ↔ ((a ≡ args_of c) × IsConfig c)
unfolding post_init
ratelimiter-post_init_accepts a c = (λ h. (ground arith, ground arith), λ h. ground arith)

pub data EventType : Type 0 where
  success rejected error : EventType

pub record Event : Type 0 where
  pub event_type : EventType
  pub name : String
  pub available_permits : ℕ
  pub wait_time : Quotient
  pub exception : Option Exc
