-- ===== src/CircuitBreaker/HalfOpen.antt =====
-- src/pysilience/circuitbreaker.py: the HALF_OPEN state, from the first probe to the decision, and
-- where it never decides.
use pysilience.Prelude.{
  ℕ, zero, suc, ◌+◌, ◌<◌, ◌≡◌, ◌∙◌, ap, true, false, some, none, List, [], ◌∷◌, ◌++◌, arith,
  lt→not_leb, length, length-append, All,
}
use pysilience.Python.{Exc, circuit_breaker_open, Result, ok, raise, Quotient}
use pysilience.CircuitBreaker.Config.{closed, half_open}
use pysilience.CircuitBreaker.Breaker.{
  Breaker, reject, acquire_in, acquire_permission, failures, rate_reached, record_half_open,
  record_in, record_outcome, is_failure, is_ignored, emit_transitions, on_complete, finish,
  execute_with, execute,
}
use pysilience.CircuitBreaker.Window.{failures-append}

-- A call of `execute` whose `func` gives `r` while nothing else uses the object.
abbrev pub call {ℓ} : {A : Type ℓ} → Result A → Breaker → Breaker
call r b = (execute (λ c. (r, c)) b).1

-- `n` calls, one after the other, each with the same outcome.
abbrev pub calls {ℓ} : {A : Type ℓ} → ℕ → Result A → Breaker → Breaker
calls zero r b = b
calls (suc n) r b = calls n r (call r b)

-- The state of a half-open circuit with `n` permits left, after successful probes only.
pub record Probing (n : ℕ) (b : Breaker) : Type 0 where
  pub in_half_open : b.state ≡ half_open
  pub left : b.half_open_allowed ≡ n
  pub all_good : failures b.half_open_results ≡ 0
  pub planned :
      length b.half_open_results + n ≡ b.config.permitted_number_of_calls_in_half_open_state
  pub threshold_pos : 0 < b.config.failure_rate_threshold.num

pub record Recovered (b : Breaker) : Type 0 where
  pub in_closed : b.state ≡ closed
  pub cleared : b.window ≡ []
  pub no_failures : b.failure_count ≡ 0

probe-more {ℓ} :
    {A : Type ℓ} (n : ℕ) (a : A) (b : Breaker)
    → Probing (suc (suc n)) b
    → Probing (suc n) (call (ok a) b)
unfolding execute acquire_permission acquire_in execute_with finish on_complete record_outcome
    record_in record_half_open emit_transitions is_ignored is_failure
probe-more n a b h = ground (
  arith,
  length-append b.half_open_results (true ∷ []),
  failures-append b.half_open_results (true ∷ []),
)

no_failures_below :
    (failed total : ℕ) (t : Quotient)
    → failed ≡ 0
    → 0 < total
    → 0 < t.num
    → rate_reached failed total t ≡ false
no_failures_below failed total t z p q = lt→not_leb _ _ (rw z (grind arith))

probe-last {ℓ} : {A : Type ℓ} (a : A) (b : Breaker) → Probing 1 b → Recovered (call (ok a) b)
unfolding execute acquire_permission acquire_in execute_with finish on_complete record_outcome
    record_in record_half_open emit_transitions is_ignored is_failure
probe-last a b h = ground (
  arith,
  no_failures_below (failures (b.half_open_results ++ (true ∷ [])))
      (length (b.half_open_results ++ (true ∷ []))) b.config.failure_rate_threshold,
  length-append b.half_open_results (true ∷ []),
  failures-append b.half_open_results (true ∷ []),
)

-- When every remaining probe succeeds, one after the other and with nothing else using the object,
-- and none has failed, the last one closes the circuit with an empty window.
pub probes-Recovered {ℓ} :
    {A : Type ℓ} (n : ℕ) (a : A) (b : Breaker)
    → Probing (suc n) b
    → Recovered (calls (suc n) (ok a) b)
probes-Recovered zero a b h = probe-last a b h
probes-Recovered (suc n) a b h = probes-Recovered n a (call (ok a) b) (probe-more n a b h)

-- A half-open circuit without permits.
pub record Blocked (b : Breaker) : Type 0 where
  pub in_half_open : b.state ≡ half_open
  pub none_left : b.half_open_allowed ≡ 0

-- Calls of any kind, one after the other, with what each caller gets.
abbrev pub run {ℓ} : {A : Type ℓ} → List (Breaker → Result A × Breaker) → Breaker → List (Result A)
run [] b = []
run (func ∷ rest) b = let (r, b') = execute func b in r ∷ run rest b'

Blocked-execute {ℓ} :
    {A : Type ℓ} (func : Breaker → Result A × Breaker) (b : Breaker)
    → Blocked b
    → ((execute func b).0 ≡ raise (circuit_breaker_open b.name none))
      × ((execute func b).1.name ≡ b.name)
      × Blocked (execute func b).1
unfolding execute acquire_permission acquire_in execute_with reject
Blocked-execute func b h = ground arith

Blocked-run {ℓ} :
    {A : Type ℓ} (funcs : List (Breaker → Result A × Breaker)) (b : Breaker)
    → Blocked b
    → All (λ r. r ≡ raise (circuit_breaker_open b.name none)) (run funcs b)
Blocked-run [] b h = tt
Blocked-run {A} (func ∷ rest) b h =
    let (rejected, named, still) = Blocked-execute func b h in
    (rejected, rw named at (Blocked-run rest (execute func b).1 still))

ignored_call {ℓ} :
    (A : Type ℓ) (n : ℕ) (exc : Exc) (b : Breaker)
    → b.state ≡ half_open
    → b.half_open_allowed ≡ suc n
    → is_ignored b.config (some exc) ≡ true
    → let b' = call {A = A} (raise exc) b in
      (b'.state ≡ half_open)
      × (b'.half_open_allowed ≡ n)
      × (b'.config ≡ b.config)
      × (b'.name ≡ b.name)
unfolding execute acquire_permission acquire_in execute_with finish on_complete emit_transitions
ignored_call A n exc b e left i = ground arith

-- When calls that all end in an exception of `ignore_exceptions`, one after the other and with
-- nothing else using the object, have used up the permits of a half-open circuit, every later call
-- is rejected, whatever it is.
pub ignored_probes_block {ℓ} :
    {A : Type ℓ} (n : ℕ) (exc : Exc) (b : Breaker) (funcs : List (Breaker → Result A × Breaker))
    → b.state ≡ half_open
    → b.half_open_allowed ≡ n
    → is_ignored b.config (some exc) ≡ true
    → All
        (λ r. r ≡ raise (circuit_breaker_open b.name none))
        (run funcs (calls {A = A} n (raise exc) b))
ignored_probes_block zero exc b funcs e left i =
    Blocked-run funcs b (record { in_half_open = e; none_left = left })
ignored_probes_block {A} (suc n) exc b funcs e left i =
    let (e', left', same, named) = ignored_call A n exc b e left i in
    rw named at (
      ignored_probes_block n exc (call (raise exc) b) funcs e' left'
        (ap (λ c. is_ignored c (some exc)) same ∙ i))
