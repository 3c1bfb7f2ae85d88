-- ===== src/CircuitBreaker/Admission.antt =====
-- src/pysilience/circuitbreaker.py: which calls `execute` lets through, in the CLOSED and OPEN
-- states.
use native.Mathlib.Decide.{dec_lt}
use pysilience.Prelude.{◌+◌, ◌-◌, ◌<◌, ◌≤◌, ◌≡◌, refl, ◌⊎◌, inl, inr, true, false, some, arith}
use pysilience.Python.{Exc, circuit_breaker_open, Result, ok, raise, monotonic}
use pysilience.CircuitBreaker.Config.{State, closed, opened, half_open}
use pysilience.CircuitBreaker.Breaker.{
  Breaker, reject, acquire_in, acquire_permission, window_record, trips, record_closed, record_in,
  record_outcome, is_failure, is_ignored, emit_transitions, on_complete, finish, execute_with,
  execute,
}
use pysilience.CircuitBreaker.Invariant.{IsValid}

finish-result {ℓ} : {A : Type ℓ} (s : State) (r : Result A) (b : Breaker) → (finish s r b).0 ≡ r
unfolding finish
finish-result s (ok a) b = refl
finish-result s (raise e) b = refl

-- While the circuit is closed every call runs, and its caller gets what `func` gave: the result, or
-- the very exception.
pub execute-closed {ℓ} :
    {A : Type ℓ} (func : Breaker → Result A × Breaker) (b : Breaker)
    → b.state ≡ closed
    → (execute func b).0 ≡ (func b).0
unfolding execute acquire_permission acquire_in execute_with emit_transitions
execute-closed func b e = ground (arith, finish-result closed (func b).0 (func b).1)

-- A call that an open circuit lets through comes at least `wait_duration_in_open_state` after the
-- circuit opened; one that it rejects comes earlier, learns how long is left, and does not run
-- `func`.
pub execute-opened {ℓ} :
    {A : Type ℓ} (func : Breaker → Result A × Breaker) (b : Breaker)
    → IsValid b
    → b.state ≡ opened
    → let now = (monotonic b.clock).now in
      let due = b.opened_at + b.config.wait_duration_in_open_state in
      ((due ≤ now) × ((acquire_permission b).1.state ≡ half_open))
      ⊎ ((now < due)
          × (execute func b
              ≡ (raise (circuit_breaker_open b.name (some (due - now))), (acquire_permission b).1))
          × ((acquire_permission b).1.state ≡ opened))
unfolding execute acquire_permission acquire_in execute_with reject
execute-opened func b h e =
    let due = b.opened_at + b.config.wait_duration_in_open_state in
    elim (dec_lt (monotonic b.clock).now due) [
      | yes early ↦ inr (early, ground arith, ground arith)
      | no late ↦ inl (omega arith, ground arith)
    ]

-- A failure that brings the window to the threshold opens the circuit, at the time that the clock
-- shows then. The next call, whatever it is, comes at least `wait_duration_in_open_state` after that
-- time, or it is rejected and learns how long is left.
pub trip-rejects {ℓ} :
    {A : Type ℓ} (func : Breaker → Result A × Breaker) (exc : Exc) (b : Breaker)
    → b.state ≡ closed
    → is_ignored b.config (some exc) ≡ false
    → is_failure b.config (some exc) ≡ true
    → trips (window_record false b) ≡ true
    → let after = on_complete closed (some exc) b in
      let now = (monotonic after.clock).now in
      let due = (monotonic b.clock).now + b.config.wait_duration_in_open_state in
      (after.state ≡ opened)
      × ((due ≤ now)
          ⊎ ((execute func after).0 ≡ raise (circuit_breaker_open b.name (some (due - now)))))
unfolding execute acquire_permission acquire_in execute_with reject on_complete record_outcome
    record_in record_closed emit_transitions window_record
trip-rejects func exc b e i f t =
    let after = on_complete closed (some exc) b in
    let due = (monotonic b.clock).now + b.config.wait_duration_in_open_state in
    (
      ground arith,
      elim (dec_lt (monotonic after.clock).now due) [
        | yes early ↦ inr (ground arith)
        | no late ↦ inl (omega arith)
      ],
    )
