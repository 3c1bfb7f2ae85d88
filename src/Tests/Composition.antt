-- ===== src/Tests/Composition.antt =====
-- Patterns around each other at concrete inputs.
use pysilience.Prelude.{ℕ, ◌+◌, ◌<◌, ◌≡◌, refl, ◌⊎◌, [], ◌∷◌, arith}
use pysilience.Python.{Exc, exception_class, is_instance, is_exception, Result, ok, raise}
use pysilience.Retry.Config.{IsConfig}
use pysilience.Retry.Loop.{
  Retry, Platform, overflows, computed_wait, after_sleep, after_wait, wait_and_retry,
  classifies_retryable, wait_seconds_before_retry, on_exception, on_result, attempts,
}
use pysilience.Retry.Loop.{execute as retry_execute}
use pysilience.Retry.Decorator.{default_config}
use pysilience.Fallback.Handler.{Fallback, should_fallback, after_action, invoke_fallback}
use pysilience.Fallback.Handler.{execute as fallback_execute, on_result as fallback_on_result}
use pysilience.Composition.FallbackRetry.{retrying, Answered, Exhausted, Unwaited, fallback-retry}
use pysilience.Tests.Data.{boom}

program : Unit {0}
unfolding is_instance is_exception classifies_retryable overflows computed_wait after_sleep
    after_wait wait_and_retry wait_seconds_before_retry on_exception on_result attempts
    retry_execute should_fallback after_action invoke_fallback fallback_on_result fallback_execute
program = tt

abbrev retry : Retry
retry = record { config = default_config 10; name = "api"; events = []; sleeps = []; draws = 0 }

abbrev fallback : Fallback
fallback = record {
  config = record { fallback_on = exception_class ∷ []; raise_on = [] };
  name = "cached";
  events = [];
}

abbrev calm : Platform
calm = record { uniform = λ lo hi n. lo; sleep = λ wait n. ok tt }

-- The world counts the calls.
abbrev failing : ℕ → Result ℕ × ℕ
failing n = (raise boom, n + 1)

abbrev constant_seven : Exc → Retry × ℕ → Result ℕ × (Retry × ℕ)
constant_seven exc w = (ok 7, w)

recovers_after_three :
    let (answer, f', (r', calls)) =
      fallback_execute constant_seven (retrying calm failing) fallback (retry, 0) in
    (answer ≡ ok 7) × (calls ≡ 3)
unfolding program
recovers_after_three = (refl, refl)

retry-IsConfig : IsConfig retry.config
retry-IsConfig = omega arith

fallback-retry_example :
    ((k : ℕ) × (k < 3) × Answered calm failing constant_seven fallback retry 0 k)
    ⊎ Exhausted calm failing constant_seven fallback retry 0 3
    ⊎ ((k : ℕ) × (k + 1 < 3) × Unwaited calm failing constant_seven fallback retry 0 k)
fallback-retry_example = fallback-retry calm failing constant_seven fallback retry 0 retry-IsConfig
