-- ===== src/CircuitBreaker/Steps.antt =====
-- src/pysilience/circuitbreaker.py: the object under concurrent calls. Each block under
-- `self._lock` is atomic, so a run is a sequence of the steps below in any order: calls are
-- admitted and rejected, those that run complete or are abandoned (an exception that is no
-- `Exception` passes `_on_complete` by), the clock moves, and the object is reset.

use pysilience.Prelude.{ℕ, ◌+◌, ◌≡◌, Option, List, [], ◌∷◌, ◌++◌, String}
use pysilience.Python.{Exc, ok, raise, Clock, sleep}
use pysilience.CircuitBreaker.Config.{State, half_open, Config}
use pysilience.CircuitBreaker.Breaker.{
  Breaker, init, reset, acquire_permission, emit_transitions, on_complete,
}

-- The object, the states that the running calls were admitted in, and how many were admitted since
-- the circuit was last half-opened.
pub record System : Type 0 where
  pub breaker : Breaker
  pub running : List State
  pub admitted : ℕ

-- The count of admissions: an admission with a transition is the first of its period.
abbrev pub count_admission : State × List (State × State) → ℕ → ℕ
count_admission (s, t ∷ ts) n = 1
count_admission (half_open, []) n = n + 1
count_admission (_, []) n = n

pub data Step (s : System) : System → Type 0 where
  admit :
      {b : Breaker} (called_in : State) (transitions : List (State × State))
      → acquire_permission s.breaker ≡ (ok (called_in, transitions), b)
      → Step s (record {
        breaker = emit_transitions transitions b;
        running = called_in ∷ s.running;
        admitted = count_admission (called_in, transitions) s.admitted;
      })
  refuse :
      {b : Breaker} (err : Exc)
      → acquire_permission s.breaker ≡ (raise err, b)
      → Step s (record s { breaker = b })
  complete :
      (before after : List State) (called_in : State) (exc : Option Exc)
      → s.running ≡ before ++ (called_in ∷ after)
      → Step s
          (record s { breaker = on_complete called_in exc s.breaker; running = before ++ after })
  abandon :
      (before after : List State) (called_in : State)
      → s.running ≡ before ++ (called_in ∷ after)
      → Step s (record s { running = before ++ after })
  wait :
      (t : ℕ)
      → Step s (record s { breaker = record (s.breaker) { clock = sleep t s.breaker.clock } })
  force_reset : Step s (record s { breaker = reset s.breaker })

pub data Reach (s : System) : System → Type 0 where
  here : Reach s s
  next : {t u : System} → Reach s t → Step t u → Reach s u

-- A new object that nothing uses yet.
abbrev pub start : Config → Option String → Clock → System
start config name clock = record { breaker = init config name clock; running = []; admitted = 0 }
