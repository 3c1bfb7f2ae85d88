-- ===== src/CircuitBreaker/Config.antt =====
-- src/pysilience/circuitbreaker.py: `CircuitBreakerState`, `CircuitBreakerConfig` with its checks,
-- and the events.
use pysilience.Prelude.{
  ℕ, String, ◌≤◌, ◌<◌, ◌≡◌, ◌↔◌, Bool, ◌&&◌, not, Option, List, if◌then◌else◌, arith,
}
use pysilience.Python.{
  Class, Exc, value_error, Result, ok, raise, Quotient, ℤ, pos, ltb_ℤ, leb_ℤ, to_ℕ,
}

pub data State : Type 0 where
  closed opened half_open : State

pub record Config : Type 0 where
  pub failure_rate_threshold : Quotient
  pub sliding_window_size : ℕ
  pub minimum_number_of_calls : ℕ
  pub wait_duration_in_open_state : ℕ
  pub permitted_number_of_calls_in_half_open_state : ℕ
  pub record_exceptions : List Class
  pub ignore_exceptions : List Class

-- The arguments of the dataclass, before `__post_init__` has looked at them. The threshold is
-- `threshold_num / threshold_den`, with a positive denominator.
pub record Args : Type 0 where
  pub threshold_num : ℤ
  pub threshold_den : ℕ
  pub sliding_window_size : ℤ
  pub minimum_number_of_calls : ℤ
  pub wait_duration_in_open_state : ℤ
  pub permitted_number_of_calls_in_half_open_state : ℤ
  pub record_exceptions : List Class
  pub ignore_exceptions : List Class

-- `a > b` for two signed arguments, the second checked to be at least 1.
abbrev gtb_ℤ : ℤ → ℤ → Bool
gtb_ℤ a b = not (leb_ℤ a (to_ℕ b))

abbrev accepted : Args → Config
accepted a = record {
  failure_rate_threshold = record { num = to_ℕ a.threshold_num; den = a.threshold_den };
  sliding_window_size = to_ℕ a.sliding_window_size;
  minimum_number_of_calls = to_ℕ a.minimum_number_of_calls;
  wait_duration_in_open_state = to_ℕ a.wait_duration_in_open_state;
  permitted_number_of_calls_in_half_open_state =
      to_ℕ a.permitted_number_of_calls_in_half_open_state;
  record_exceptions = a.record_exceptions;
  ignore_exceptions = a.ignore_exceptions;
}

-- `__post_init__`: the checks in their order.
unfoldable pub post_init : Args → Result Config
post_init a =
    if not (not (leb_ℤ a.threshold_num 0) && leb_ℤ a.threshold_num a.threshold_den)
    then raise value_error
    else if ltb_ℤ a.sliding_window_size 1
    then raise value_error
    else if ltb_ℤ a.minimum_number_of_calls 1
    then raise value_error
    else if gtb_ℤ a.minimum_number_of_calls a.sliding_window_size
    then raise value_error
    else if ltb_ℤ a.wait_duration_in_open_state 0
    then raise value_error
    else if ltb_ℤ a.permitted_number_of_calls_in_half_open_state 1
    then raise value_error
    else ok (accepted a)

-- What the checks promise of a configuration.
pub record IsConfig (c : Config) : Type 0 where
  pub threshold_pos : 0 < c.failure_rate_threshold.num
  pub threshold_le_one : c.failure_rate_threshold.num ≤ c.failure_rate_threshold.den
  pub minimum_pos : 0 < c.minimum_number_of_calls
  pub minimum_fits : c.minimum_number_of_calls ≤ c.sliding_window_size
  pub permitted_pos : 0 < c.permitted_number_of_calls_in_half_open_state

-- The arguments that give a configuration.
abbrev pub args_of : Config → Args
args_of c = record {
  threshold_num = pos c.failure_rate_threshold.num;
  threshold_den = c.failure_rate_threshold.den;
  sliding_window_size = pos c.sliding_window_size;
  minimum_number_of_calls = pos c.minimum_number_of_calls;
  wait_duration_in_open_state = pos c.wait_duration_in_open_state;
  permitted_number_of_calls_in_half_open_state = pos c.permitted_number_of_calls_in_half_open_state;
  record_exceptions = c.record_exceptions;
  ignore_exceptions = c.ignore_exceptions;
}

pub data EventType : Type 0 where
  success error ignored_error rejected state_transition : EventType

pub record Event : Type 0 where
  pub event_type : EventType
  pub name : String
  pub state : State
  pub exception : Option Exc
  pub from_state : Option State
  pub to_state : Option State

-- The checks pass exactly the arguments of a valid configuration, and build that configuration.
pub post_init_accepts :
    (a : Args) (c : Config) → (post_init a ≡ ok c) ↔ ((a ≡ args_of c) × IsConfig c)
unfolding post_init
post_init_accepts a c = (λ h. (ground arith, ground arith), λ h. ground arith)
