-- ===== src/Tests/Retry.antt =====
-- src/pysilience/retry.py at concrete inputs.
use pysilience.Prelude.{ℕ, zero, suc, ◌≡◌, refl, false, some, [], ◌∷◌, arith}
use pysilience.Python.{
  retries_exhausted, overflow_error, is_instance, is_exception, exception_class, Result, ok, raise,
  pos, Leq, of_ℕ, mul,
}
use pysilience.Retry.Config.{Config, Args, IsConfig}
use pysilience.Retry.Loop.{
  Retry, Uniform, Platform, overflows, computed_wait, after_sleep, after_wait, wait_and_retry, init,
  classifies_retryable, base_wait, jitter_hi, wait_seconds_before_retry, on_exception, on_result,
  attempts, execute,
}
use pysilience.Retry.Backoff.{IsUniform, wait_seconds-Leq_cap}
use pysilience.Retry.Attempts.{Ends, execute-Ends}
use pysilience.Tests.Data.{boom, ignorable, interrupt}

program : Unit {0}
unfolding is_instance is_exception init classifies_retryable base_wait overflows computed_wait
    after_sleep after_wait wait_and_retry wait_seconds_before_retry on_exception on_result attempts
    execute
program = tt

abbrev args : Args
args = record {
  max_attempts = pos 3;
  initial_interval = pos 10;
  multiplier_num = pos 2;
  multiplier_den = 1;
  max_interval = some (pos 15);
  jitter = false;
  jitter_num = pos 1;
  jitter_den = 10;
  retry_on = exception_class ∷ [];
  abort_on = ignorable ∷ [];
}

abbrev config : Config
config = record {
  max_attempts = 3;
  initial_interval = 10;
  multiplier = record { num = 2; den = 1 };
  max_interval = some 15;
  jitter = false;
  jitter_ratio = record { num = 1; den = 10 };
  retry_on = exception_class ∷ [];
  abort_on = ignorable ∷ [];
}

abbrev fresh : Retry
fresh = record { config = config; name = "api"; events = []; sleeps = []; draws = 0 }

config-IsConfig : IsConfig config
config-IsConfig = omega arith

-- The lower end, whatever the draw.
abbrev low : Uniform
low lo hi n = lo

low-IsUniform : IsUniform low
low-IsUniform = record { from_lo = λ lo hi n h. omega arith; to_hi = λ lo hi n h. h }

-- Sleeps that end; and a machine whose second sleep is interrupted.
abbrev calm : Platform
calm = record { uniform = low; sleep = λ wait n. ok tt }

abbrev woken : ℕ → Result (Unit {0})
woken zero = ok tt
woken (suc n) = raise interrupt

abbrev restless : Platform
restless = record { uniform = low; sleep = λ wait n. woken n }

-- The world is how many calls still fail.
abbrev flaky : ℕ → Result ℕ × ℕ
flaky zero = (ok 7, zero)
flaky (suc n) = (raise boom, n)

recovers :
    ((execute calm flaky fresh 2).0 ≡ ok 7)
    × ((execute calm flaky fresh 2).1.sleeps ≡ of_ℕ 15 ∷ of_ℕ 10 ∷ [])
unfolding program
recovers = (refl, refl)

gives_up : (execute calm flaky fresh 3).0 ≡ raise (retries_exhausted "api" 3 boom)
unfolding program
gives_up = refl

interrupted : (execute restless flaky fresh 3).0 ≡ raise interrupt
unfolding program
interrupted = refl

-- The powers of two fit up to the exponent 1023; the wait after the 1025th call overflows.
abbrev doubling : Config
doubling = record config { max_attempts = 2000 }

last_wait : wait_seconds_before_retry low doubling 0 1024 ≡ ok (of_ℕ 15)
unfolding program
last_wait = refl

overflown : wait_seconds_before_retry low doubling 0 1025 ≡ raise overflow_error
unfolding program
overflown = refl

second_wait : wait_seconds_before_retry low config 0 2 ≡ ok (of_ℕ 15)
unfolding program
second_wait = refl

wait_seconds-Leq_cap_example : Leq (of_ℕ 15) (mul (of_ℕ 15) (jitter_hi config))
wait_seconds-Leq_cap_example =
    wait_seconds-Leq_cap low config 0 2 15 (of_ℕ 15) low-IsUniform refl second_wait

execute-Ends_example : Ends flaky calm config "api" 0 2 1 2 (execute calm flaky fresh 2)
execute-Ends_example = execute-Ends flaky calm fresh 2 config-IsConfig
