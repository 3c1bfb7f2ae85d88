-- ===== src/CircuitBreaker/Invariant.antt =====
-- src/pysilience/circuitbreaker.py: the invariant of `CircuitBreaker`, and that every method keeps
-- it.
use pysilience.Prelude.{
  ◌≤◌, ◌<◌, ◌≡◌, refl, Bool, false, Option, none, some, List, [], ◌∷◌, String, length, arith, inl,
  inr, Bool-cases, not,
}
use pysilience.Python.{Exc, Result, ok, raise, Clock, is_exception}
use pysilience.CircuitBreaker.Config.{State, closed, opened, half_open, Config, IsConfig, Event}
use pysilience.CircuitBreaker.Breaker.{
  Breaker, init, reset, reject, acquire_in, acquire_permission, failures, window_record, trips,
  record_closed, record_half_open, record_in, record_outcome, is_failure, is_ignored, emit_event,
  emit_transition, emit_transitions, on_complete, finish, execute_with, execute,
}
use pysilience.CircuitBreaker.Window.{length-append_deque, window_record-counted}

-- `below`: while the circuit is closed, the window is too short or its failure rate is below the
-- threshold. `probing`: while it is half-open, fewer probes have reported than are permitted.
pub record IsValid (b : Breaker) : Type 0 where
  pub sound : IsConfig b.config
  pub counted : b.failure_count ≡ failures b.window
  pub bounded : length b.window ≤ b.config.sliding_window_size
  pub allowed : b.half_open_allowed < b.config.permitted_number_of_calls_in_half_open_state
  pub past : b.opened_at ≤ b.clock.now
  pub below : b.state ≡ closed → trips b ≡ false
  pub probing :
      b.state ≡ half_open
      → length b.half_open_results < b.config.permitted_number_of_calls_in_half_open_state

-- What holds in each state: a closed circuit is below its threshold or its minimum of calls, an open
-- one was opened in the past, a half-open one waits for further probes.
abbrev pub InState : State → Breaker → Type 0
InState closed b = trips b ≡ false
InState opened b = b.opened_at ≤ b.clock.now
InState half_open b =
    length b.half_open_results < b.config.permitted_number_of_calls_in_half_open_state

pub record IsSound (b : Breaker) : Type 0 where
  pub counted : b.failure_count ≡ failures b.window
  pub bounded : length b.window ≤ b.config.sliding_window_size
  pub in_state : InState b.state b

valid-InState : (s : State) (b : Breaker) → b.state ≡ s → IsValid b → InState s b
valid-InState closed b e h = h.below e
valid-InState opened b e h = h.past
valid-InState half_open b e h = h.probing e

pub valid-IsSound : (b : Breaker) → IsValid b → IsSound b
valid-IsSound b h = record {
  counted = h.counted;
  bounded = h.bounded;
  in_state = valid-InState b.state b refl h;
}

pub init-IsValid :
    (config : Config) (name : Option String) (clock : Clock)
    → IsConfig config
    → IsValid (init config name clock)
unfolding init
init-IsValid config name clock h = ground arith

pub reset-IsValid : (b : Breaker) → IsValid b → IsValid (reset b)
unfolding reset
reset-IsValid b h = ground arith

acquire_in-IsValid :
    (s : State) (b : Breaker) → b.state ≡ s → IsValid b → IsValid (acquire_in s b).1
unfolding acquire_in reject
acquire_in-IsValid closed b e h = h
acquire_in-IsValid opened b e h = ground arith
acquire_in-IsValid half_open b e h = ground arith

pub acquire_permission-IsValid : (b : Breaker) → IsValid b → IsValid (acquire_permission b).1
unfolding acquire_permission
acquire_permission-IsValid b h = acquire_in-IsValid b.state b refl h

record_closed-IsValid :
    (success : Bool) (b : Breaker)
    → b.state ≡ closed
    → IsValid b
    → IsValid (record_closed success b).1
unfolding record_closed window_record
record_closed-IsValid success b e h = ground (
  arith,
  window_record-counted success b h.counted,
  length-append_deque b.config.sliding_window_size b.window success,
)

record_half_open-IsValid :
    (success : Bool) (b : Breaker)
    → b.state ≡ half_open
    → IsValid b
    → IsValid (record_half_open success b).1
unfolding record_half_open
record_half_open-IsValid success b e h = ground arith

record_in-IsValid :
    (called_in s : State) (success : Bool) (b : Breaker)
    → b.state ≡ s
    → IsValid b
    → IsValid (record_in called_in s success b).1
unfolding record_in
record_in-IsValid closed closed success b e h = record_closed-IsValid success b e h
record_in-IsValid half_open half_open success b e h = record_half_open-IsValid success b e h
record_in-IsValid _ _ success b e h = h

pub record_outcome-IsValid :
    (called_in : State) (success : Bool) (b : Breaker)
    → IsValid b
    → IsValid (record_outcome called_in success b).1
unfolding record_outcome
record_outcome-IsValid called_in success b h = record_in-IsValid called_in b.state success b refl h

emitted-IsValid : (e : Event) (b : Breaker) → IsValid b → IsValid (emit_event e b)
emitted-IsValid e b h = ground arith

pub emit_transitions-IsValid :
    (ts : List (State × State)) (b : Breaker) → IsValid b → IsValid (emit_transitions ts b)
unfolding emit_transitions
emit_transitions-IsValid [] b h = h
emit_transitions-IsValid ((p, q) ∷ ts) b h =
    emit_transitions-IsValid ts (emit_transition p q b) (emitted-IsValid _ b h)

pub on_complete-IsValid :
    (called_in : State) (exc : Option Exc) (b : Breaker)
    → IsValid b
    → IsValid (on_complete called_in exc b)
unfolding on_complete
on_complete-IsValid called_in exc b h =
    let failed = is_failure b.config exc in
    let recorded = record_outcome-IsValid called_in (not failed) b h in
    elim (Bool-cases (is_ignored b.config exc)) [
      | inl ignored ↦ rw ignored (emitted-IsValid _ b h)
      | inr counts ↦ rw counts (elim (Bool-cases failed) [
        | inl yes_failed ↦
            rw yes_failed
              (emit_transitions-IsValid _ _ (emitted-IsValid _ _ (rw yes_failed at recorded)))
        | inr not_failed ↦
            rw not_failed
              (emit_transitions-IsValid _ _ (emitted-IsValid _ _ (rw not_failed at recorded)))
      ])
    ]

pub finish-IsValid {ℓ} :
    {A : Type ℓ} (called_in : State) (r : Result A) (b : Breaker)
    → IsValid b
    → IsValid (finish called_in r b).1
unfolding finish
finish-IsValid called_in (ok a) b h = on_complete-IsValid called_in none b h
finish-IsValid called_in (raise exc) b h = elim (Bool-cases (is_exception exc)) [
  | inl caught ↦ rw caught (on_complete-IsValid called_in (some exc) b h)
  | inr passes ↦ rw passes h
]

execute_with-IsValid {ℓ} :
    {A : Type ℓ} (func : Breaker → Result A × Breaker) (p : Result (State × List (State × State)))
    (b : Breaker)
    → ((c : Breaker) → IsValid c → IsValid (func c).1)
    → IsValid b
    → IsValid (execute_with func p b).1
unfolding execute_with
execute_with-IsValid func (raise err) b keeps h = h
execute_with-IsValid func (ok (s, ts)) b keeps h =
    finish-IsValid s _ _ (keeps (emit_transitions ts b) (emit_transitions-IsValid ts b h))

-- A call keeps the invariant if what runs meanwhile does, however the call ends: rejected, with a
-- result, or with an exception of any class.
pub execute-IsValid {ℓ} :
    {A : Type ℓ} (func : Breaker → Result A × Breaker) (b : Breaker)
    → ((c : Breaker) → IsValid c → IsValid (func c).1)
    → IsValid b
    → IsValid (execute func b).1
unfolding execute
execute-IsValid func b keeps h =
    execute_with-IsValid func _ _ keeps (acquire_permission-IsValid b h)
