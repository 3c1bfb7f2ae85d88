-- ===== src/Timeout/Outcomes.antt =====
-- src/pysilience/timeout.py: how a call ends.
use pysilience.Prelude.{Bool, false, ◌||◌}
use pysilience.Python.{Result, ok, raise}
use pysilience.Timeout.Limiter.{Timeout, is_timeout_error, is_cancelled}

-- The call ended with the library's own class of timeout errors.
abbrev pub raises_timeout {ℓ} : {A : Type ℓ} → Result A → Bool
raises_timeout (ok a) = false
raises_timeout (raise exc) = is_timeout_error exc

-- The call ended in its cancellation, or with a timeout error.
abbrev pub gives_up {ℓ} : {A : Type ℓ} → Result A → Bool
gives_up (ok a) = false
gives_up (raise exc) = is_cancelled exc || is_timeout_error exc
