-- ===== src/CircuitBreaker/Breaker/Completion.antt =====
-- src/pysilience/circuitbreaker.py: what a finished call does to the object, and `execute`.
use pysilience.Prelude.{
  ℕ, ◌+◌, ◌-◌, ◌*◌, Bool, false, not, ◌&&◌, Option, none, some, List, [], ◌∷◌, ◌++◌, length, leb,
  ◌==◌, if◌then◌else◌,
}
use pysilience.Python.{
  Exc, is_instance, is_exception, non_empty, Result, ok, raise, monotonic, Quotient,
}
use pysilience.CircuitBreaker.Config.{State, closed, opened, half_open, Config, EventType}
use pysilience.CircuitBreaker.Breaker.Object.{
  Breaker, emit_transitions, emit_outcome, acquire_permission,
}

-- `sum(1 for x in results if not x)`
abbrev pub failures : List Bool → ℕ
failures [] = 0
failures (x ∷ xs) = (if x then 0 else 1) + failures xs

-- `deque.append` under `maxlen`: a full deque drops its left end.
abbrev pub append : ℕ → List Bool → Bool → List Bool
append maxlen [] x = x ∷ []
append maxlen (w ∷ ws) x =
    if length (w ∷ ws) == maxlen then ws ++ (x ∷ []) else (w ∷ ws) ++ (x ∷ [])

-- Whether the left end of the deque, about to be evicted, is a failure.
abbrev pub evicts_failure : ℕ → List Bool → Bool
evicts_failure maxlen [] = false
evicts_failure maxlen (w ∷ ws) = length (w ∷ ws) == maxlen && not w

-- `_window_record`
unfoldable pub window_record : Bool → Breaker → Breaker
window_record success b =
    let maxlen = b.config.sliding_window_size in
    let kept = if evicts_failure maxlen b.window then b.failure_count - 1 else b.failure_count in
    record b {
      window = append maxlen b.window success;
      failure_count = if success then kept else kept + 1;
    }

-- `failures / total >= threshold`, by multiplying out; `total` is positive where it is called.
abbrev pub rate_reached : ℕ → ℕ → Quotient → Bool
rate_reached failed total threshold = leb (threshold.num * total) (failed * threshold.den)

-- The state OPEN, with the clock read.
abbrev trip : Breaker → Breaker
trip b =
    let clock = monotonic b.clock in
    record b { state = opened; clock = clock; opened_at = clock.now }

-- The tests of the CLOSED branch of `_record_outcome`, after the outcome was recorded.
abbrev pub trips : Breaker → Bool
trips b =
    let total = length b.window in
    leb b.config.minimum_number_of_calls total
    && rate_reached b.failure_count total b.config.failure_rate_threshold

unfoldable pub record_closed : Bool → Breaker → List (State × State) × Breaker
record_closed success b =
    let recorded = window_record success b in
    if trips recorded then ((closed, opened) ∷ [], trip recorded) else ([], recorded)

unfoldable pub record_half_open : Bool → Breaker → List (State × State) × Breaker
record_half_open success b =
    let results = b.half_open_results ++ (success ∷ []) in
    let recorded = record b { half_open_results = results } in
    if leb b.config.permitted_number_of_calls_in_half_open_state (length results)
    then if rate_reached (failures results) (length results) b.config.failure_rate_threshold
      then ((half_open, opened) ∷ [], trip recorded)
      else (
        (half_open, closed) ∷ [],
        record recorded { state = closed; window = []; failure_count = 0 },
      )
    else ([], recorded)

-- `_record_outcome`: an outcome counts only if the call was made in the state that still holds.
unfoldable pub record_in : State → State → Bool → Breaker → List (State × State) × Breaker
record_in closed closed success b = record_closed success b
record_in half_open half_open success b = record_half_open success b
record_in _ _ success b = ([], b)

unfoldable pub record_outcome : State → Bool → Breaker → List (State × State) × Breaker
record_outcome called_in success b = record_in called_in b.state success b

-- The first test of `_on_complete`: the exception is one of `ignore_exceptions`.
unfoldable pub is_ignored : Config → Option Exc → Bool
is_ignored c none = false
is_ignored c (some exc) = non_empty c.ignore_exceptions && is_instance exc c.ignore_exceptions

unfoldable pub is_failure : Config → Option Exc → Bool
is_failure c none = false
is_failure c (some exc) = is_instance exc c.record_exceptions

-- `_on_complete`
unfoldable pub on_complete : State → Option Exc → Breaker → Breaker
on_complete called_in exc b =
    if is_ignored b.config exc
    then emit_outcome EventType.ignored_error exc b
    else let failed = is_failure b.config exc in
      let (transitions, recorded) = record_outcome called_in (not failed) b in
      emit_transitions transitions (
        if failed
        then emit_outcome EventType.error exc recorded
        else emit_outcome EventType.success none recorded)

-- The `try` of `execute`: `except Exception` lets any other exception pass it by.
unfoldable pub finish {ℓ} : {A : Type ℓ} → State → Result A → Breaker → Result A × Breaker
finish called_in (ok result) b = (ok result, on_complete called_in none b)
finish called_in (raise exc) b =
    (raise exc, if is_exception exc then on_complete called_in (some exc) b else b)

-- What `execute` does with the answer of `_acquire_permission`.
unfoldable pub execute_with {ℓ} :
    {A : Type ℓ}
    → (Breaker → Result A × Breaker)
    → Result (State × List (State × State))
    → Breaker
    → Result A × Breaker
execute_with func (raise err) b = (raise err, b)
execute_with func (ok (called_in, transitions)) b =
    let (result, after) = func (emit_transitions transitions b) in finish called_in result after

-- `execute`. While `func` runs, other calls may use the object: `func` takes it and returns it.
unfoldable pub execute {ℓ} :
    {A : Type ℓ} → (Breaker → Result A × Breaker) → Breaker → Result A × Breaker
execute func b =
    let (permission, acquired) = acquire_permission b in execute_with func permission acquired

-- `execute_async`: the same steps; what runs while the factory is awaited is part of `factory`.
unfoldable pub execute_async {ℓ} :
    {A : Type ℓ} → (Breaker → Result A × Breaker) → Breaker → Result A × Breaker
execute_async factory b =
    let (permission, acquired) = acquire_permission b in execute_with factory permission acquired

-- `failure_rate`
unfoldable pub failure_rate : Breaker → Quotient
failure_rate b =
    let total = length b.window in
    if total == 0
    then record { num = 0; den = 1 }
    else record { num = b.failure_count; den = total }
