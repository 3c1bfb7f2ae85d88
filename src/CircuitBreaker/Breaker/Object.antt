-- ===== src/CircuitBreaker/Breaker/Object.antt =====
-- src/pysilience/circuitbreaker.py: the object of `class CircuitBreaker`, its events, `reset`, and
-- how a call is admitted.
use pysilience.Prelude.{
  ℕ, String, ◌-◌, Bool, true, false, Option, none, some, List, [], ◌∷◌, ltb, leb, if◌then◌else◌,
}
use pysilience.Python.{or_default, Exc, circuit_breaker_open, Result, ok, raise, Clock, monotonic}
use pysilience.CircuitBreaker.Config.{State, closed, opened, half_open, Config, Event, EventType}

pub record Breaker : Type 0 where
  pub config : Config
  pub name : String
  pub clock : Clock
  pub state : State
  pub window : List Bool
  pub failure_count : ℕ
  pub half_open_results : List Bool
  pub half_open_allowed : ℕ
  pub opened_at : ℕ
  pub events : List Event

-- `__init__`
unfoldable pub init : Config → Option String → Clock → Breaker
init config name clock = record {
  config = config;
  name = or_default name "circuitbreaker";
  clock = clock;
  state = closed;
  window = [];
  failure_count = 0;
  half_open_results = [];
  half_open_allowed = 0;
  opened_at = 0;
  events = [];
}

-- `_emit_event`
abbrev pub emit_event : Event → Breaker → Breaker
emit_event e b = record b { events = e ∷ b.events }

-- `_emit_transition`
abbrev pub emit_transition : State → State → Breaker → Breaker
emit_transition from_state to_state b =
    emit_event
      (record {
        event_type = EventType.state_transition;
        name = b.name;
        state = to_state;
        exception = none;
        from_state = some from_state;
        to_state = some to_state;
      })
      b

-- `for from_s, to_s in transitions: self._emit_transition(from_s, to_s)`
unfoldable pub emit_transitions : List (State × State) → Breaker → Breaker
emit_transitions [] b = b
emit_transitions ((from_state, to_state) ∷ rest) b =
    emit_transitions rest (emit_transition from_state to_state b)

-- An event about the outcome of a call.
abbrev pub emit_outcome : EventType → Option Exc → Breaker → Breaker
emit_outcome event_type exc b =
    emit_event
      (record {
        event_type = event_type;
        name = b.name;
        state = b.state;
        exception = exc;
        from_state = none;
        to_state = none;
      })
      b

abbrev is_closed : State → Bool
is_closed closed = true
is_closed _ = false

-- `reset`
unfoldable pub reset : Breaker → Breaker
reset b =
    let cleared = record b {
      state = closed;
      window = [];
      failure_count = 0;
      half_open_results = [];
      half_open_allowed = 0;
    } in
    if is_closed b.state then cleared else emit_transition b.state closed cleared

-- `_make_open_error`
abbrev pub make_open_error : Option ℕ → Breaker → Exc
make_open_error remaining b = circuit_breaker_open b.name remaining

-- The end of `_acquire_permission` where `error` is set.
unfoldable pub reject : Option ℕ → Breaker → Result (State × List (State × State)) × Breaker
reject remaining b =
    let err = make_open_error remaining b in
    (raise err, emit_outcome EventType.rejected (some err) b)

-- The chain of `_acquire_permission` on `self._state`.
unfoldable pub acquire_in : State → Breaker → Result (State × List (State × State)) × Breaker
acquire_in closed b = (ok (closed, []), b)
acquire_in opened b =
    let clock = monotonic b.clock in
    let elapsed = clock.now - b.opened_at in
    let wait = b.config.wait_duration_in_open_state in
    if leb wait elapsed
    then (
      ok (half_open, (opened, half_open) ∷ []),
      record b {
        clock = clock;
        state = half_open;
        half_open_results = [];
        half_open_allowed = b.config.permitted_number_of_calls_in_half_open_state - 1;
      },
    )
    else reject (some (wait - elapsed)) (record b { clock = clock })
acquire_in half_open b =
    if ltb 0 b.half_open_allowed
    then (ok (half_open, []), record b { half_open_allowed = b.half_open_allowed - 1 })
    else reject none b

-- `_acquire_permission`
unfoldable pub acquire_permission : Breaker → Result (State × List (State × State)) × Breaker
acquire_permission b = acquire_in b.state b
