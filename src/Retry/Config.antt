-- ===== src/Retry/Config.antt =====
-- src/pysilience/retry.py: `RetryConfig` with its checks, and the events.
use pysilience.Prelude.{
  ℕ, String, ◌≤◌, ◌<◌, ◌≡◌, ◌↔◌, Bool, false, ◌&&◌, not, Option, none, some, List, if◌then◌else◌,
  arith,
}
use pysilience.Python.{
  Class, Exc, value_error, Result, ok, raise, Quotient, ℤ, pos, ltb_ℤ, leb_ℤ, to_ℕ,
}

-- Times are ticks; the multiplier and the jitter ratio are quotients.
pub record Config : Type 0 where
  pub max_attempts : ℕ
  pub initial_interval : ℕ
  pub multiplier : Quotient
  pub max_interval : Option ℕ
  pub jitter : Bool
  pub jitter_ratio : Quotient
  pub retry_on : List Class
  pub abort_on : List Class

-- The arguments of the dataclass, before `__post_init__`. Denominators are positive.
pub record Args : Type 0 where
  pub max_attempts : ℤ
  pub initial_interval : ℤ
  pub multiplier_num : ℤ
  pub multiplier_den : ℕ
  pub max_interval : Option ℤ
  pub jitter : Bool
  pub jitter_num : ℤ
  pub jitter_den : ℕ
  pub retry_on : List Class
  pub abort_on : List Class

abbrev to_interval : Option ℤ → Option ℕ
to_interval none = none
to_interval (some t) = some (to_ℕ t)

abbrev of_interval : Option ℕ → Option ℤ
of_interval none = none
of_interval (some t) = some (pos t)

-- `max_interval is not None and max_interval < 0`
abbrev is_negative : Option ℤ → Bool
is_negative none = false
is_negative (some t) = ltb_ℤ t 0

abbrev accepted : Args → Config
accepted a = record {
  max_attempts = to_ℕ a.max_attempts;
  initial_interval = to_ℕ a.initial_interval;
  multiplier = record { num = to_ℕ a.multiplier_num; den = a.multiplier_den };
  max_interval = to_interval a.max_interval;
  jitter = a.jitter;
  jitter_ratio = record { num = to_ℕ a.jitter_num; den = a.jitter_den };
  retry_on = a.retry_on;
  abort_on = a.abort_on;
}

-- `__post_init__`
unfoldable pub post_init : Args → Result Config
post_init a =
    if ltb_ℤ a.max_attempts 1
    then raise value_error
    else if ltb_ℤ a.initial_interval 0
    then raise value_error
    else if ltb_ℤ a.multiplier_num 0
    then raise value_error
    else if is_negative a.max_interval
    then raise value_error
    else if not (not (ltb_ℤ a.jitter_num 0) && leb_ℤ a.jitter_num a.jitter_den)
    then raise value_error
    else ok (accepted a)

-- What the checks promise.
pub record IsConfig (c : Config) : Type 0 where
  pub attempts_pos : 0 < c.max_attempts
  pub ratio_le_one : c.jitter_ratio.num ≤ c.jitter_ratio.den

abbrev pub args_of : Config → Args
args_of c = record {
  max_attempts = pos c.max_attempts;
  initial_interval = pos c.initial_interval;
  multiplier_num = pos c.multiplier.num;
  multiplier_den = c.multiplier.den;
  max_interval = of_interval c.max_interval;
  jitter = c.jitter;
  jitter_num = pos c.jitter_ratio.num;
  jitter_den = c.jitter_ratio.den;
  retry_on = c.retry_on;
  abort_on = c.abort_on;
}

pub data EventType : Type 0 where
  success attempt_failure exhausted non_retryable : EventType

pub record Event : Type 0 where
  pub event_type : EventType
  pub name : String
  pub attempt : ℕ
  pub max_attempts : ℕ
  pub wait_before_next : Option Quotient
  pub exception : Option Exc

-- The checks pass exactly the arguments of a valid configuration, and build that configuration.
pub retry-post_init_accepts :
    (a : Args) (c : Config) → (post_init a ≡ ok c) ↔ ((a ≡ args_of c) × IsConfig c)
unfolding post_init
retry-post_init_accepts a c = (λ h. (ground arith, ground arith), λ h. ground arith)
