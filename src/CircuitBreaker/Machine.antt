-- ===== src/CircuitBreaker/Machine.antt =====
-- src/pysilience/circuitbreaker.py: what holds of the object in every state that concurrent calls can
-- bring it to.
use mathlib.Core.Path.{subst}
use pysilience.Prelude.{
  ℕ, ◌+◌, ◌<◌, ◌≤◌, ◌≡◌, refl, Option, List, [], ◌∷◌, arith, String, Bool, not, Bool-cases, inl,
  inr,
}
use pysilience.Python.{Exc, ok, raise, Clock, sleep}
use pysilience.CircuitBreaker.Config.{State, closed, opened, half_open, Config, IsConfig}
use pysilience.CircuitBreaker.Breaker.{
  Breaker, init, reset, reject, acquire_in, acquire_permission, record_closed, record_half_open,
  record_in, record_outcome, emit_transition, emit_transitions, is_ignored, is_failure, on_complete,
  window_record,
}
use pysilience.CircuitBreaker.Invariant.{
  IsValid, IsSound, valid-IsSound, init-IsValid, reset-IsValid, acquire_permission-IsValid,
  emit_transitions-IsValid, on_complete-IsValid,
}
use pysilience.CircuitBreaker.Steps.{
  System, count_admission, Step, admit, refuse, complete, abandon, wait, force_reset, Reach, here,
  next, start,
}

-- `probes`: in a half-open period, the calls admitted and the permits left make the permitted
-- number.
pub record IsSafe (s : System) : Type 0 where
  pub valid : IsValid s.breaker
  pub probes :
      s.breaker.state ≡ half_open
      → s.admitted + s.breaker.half_open_allowed
        ≡ s.breaker.config.permitted_number_of_calls_in_half_open_state

-- What `probes` says of an object and a count.
abbrev Counts : ℕ → Breaker → Type 0
Counts n b =
    b.state ≡ half_open
    → n + b.half_open_allowed ≡ b.config.permitted_number_of_calls_in_half_open_state

emit_transitions-Counts :
    (ts : List (State × State)) (n : ℕ) (b : Breaker)
    → Counts n b
    → Counts n (emit_transitions ts b)
unfolding emit_transitions
emit_transitions-Counts [] n b h = h
emit_transitions-Counts ((p, q) ∷ ts) n b h = emit_transitions-Counts ts n (emit_transition p q b) h

admit-Counts :
    (s : State) (n : ℕ) (b b' : Breaker) (c : State) (ts : List (State × State))
    → b.state ≡ s
    → 0 < b.config.permitted_number_of_calls_in_half_open_state
    → Counts n b
    → acquire_in s b ≡ (ok (c, ts), b')
    → Counts (count_admission (c, ts) n) b'
unfolding acquire_in reject
admit-Counts closed n b b' c ts e p h a = λ half. ground arith
admit-Counts opened n b b' c ts e p h a = λ half. ground arith
admit-Counts half_open n b b' c ts e p h a = λ half. ground arith

refuse-Counts :
    (s : State) (n : ℕ) (b b' : Breaker) (err : Exc)
    → b.state ≡ s
    → Counts n b
    → acquire_in s b ≡ (raise err, b')
    → Counts n b'
unfolding acquire_in reject
refuse-Counts closed n b b' err e h a = λ half. ground arith
refuse-Counts opened n b b' err e h a = λ half. ground arith
refuse-Counts half_open n b b' err e h a = λ half. ground arith

record_in-Counts :
    (c s : State) (success : Bool) (n : ℕ) (b : Breaker)
    → b.state ≡ s
    → Counts n b
    → Counts n (record_in c s success b).1
unfolding record_in record_closed record_half_open window_record
record_in-Counts closed closed success n b e h = λ half. ground arith
record_in-Counts half_open half_open success n b e h = λ half. ground arith
record_in-Counts _ _ success n b e h = h

on_complete-Counts :
    (c : State) (exc : Option Exc) (n : ℕ) (b : Breaker)
    → Counts n b
    → Counts n (on_complete c exc b)
unfolding on_complete record_outcome
on_complete-Counts c exc n b h =
    let failed = is_failure b.config exc in
    let recorded = record_in-Counts c b.state (not failed) n b refl h in
    elim (Bool-cases (is_ignored b.config exc)) [
      | inl ignored ↦ rw ignored h
      | inr counts ↦ rw counts (elim (Bool-cases failed) [
        | inl yes_failed ↦ rw yes_failed (emit_transitions-Counts _ n _ (rw yes_failed at recorded))
        | inr not_failed ↦ rw not_failed (emit_transitions-Counts _ n _ (rw not_failed at recorded))
      ])
    ]

reset-Counts : (n : ℕ) (b : Breaker) → Counts n (reset b)
unfolding reset
reset-Counts n b = λ half. ground arith

waited-IsValid : (t : ℕ) (b : Breaker) → IsValid b → IsValid (record b { clock = sleep t b.clock })
waited-IsValid t b h = ground arith

Step-IsSafe : {s t : System} → Step s t → IsSafe s → IsSafe t
unfolding acquire_permission
Step-IsSafe {s} (admit {b} called_in transitions e) h = record {
  valid =
      emit_transitions-IsValid transitions b
        (subst (λ r. IsValid r.1) e (acquire_permission-IsValid s.breaker h.valid));
  probes = emit_transitions-Counts transitions _ b (
      admit-Counts s.breaker.state s.admitted s.breaker b called_in transitions refl
        h.valid.sound.permitted_pos h.probes e);
}
Step-IsSafe {s} (refuse {b} err e) h = record {
  valid = subst (λ r. IsValid r.1) e (acquire_permission-IsValid s.breaker h.valid);
  probes = refuse-Counts s.breaker.state s.admitted s.breaker b err refl h.probes e;
}
Step-IsSafe {s} (complete before after called_in exc e) h = record {
  valid = on_complete-IsValid called_in exc s.breaker h.valid;
  probes = on_complete-Counts called_in exc s.admitted s.breaker h.probes;
}
Step-IsSafe (abandon before after called_in e) h = record { valid = h.valid; probes = h.probes }
Step-IsSafe {s} (wait t) h = record {
  valid = waited-IsValid t s.breaker h.valid;
  probes = h.probes;
}
Step-IsSafe {s} force_reset h = record {
  valid = reset-IsValid s.breaker h.valid;
  probes = reset-Counts s.admitted s.breaker;
}

Reach-IsSafe : {s t : System} → IsSafe s → Reach s t → IsSafe t
Reach-IsSafe h here = h
Reach-IsSafe h (next r step) = Step-IsSafe step (Reach-IsSafe h r)

reachable-IsSafe :
    (config : Config) (name : Option String) (clock : Clock) {s : System}
    → IsConfig config
    → Reach (start config name clock) s
    → IsSafe s
unfolding init
reachable-IsSafe config name clock h r =
    Reach-IsSafe
      (record { valid = init-IsValid config name clock h; probes = λ half. absurd (ground arith) })
      r

-- In every state that concurrent calls can bring a new object to: the counter is the number of
-- failures in the window, which is never longer than configured; a closed circuit is below its
-- threshold or has too few outcomes; an open one was opened in the past; and a half-open one has
-- fewer than the permitted number of outcomes.
pub reachable-IsSound :
    (config : Config) (name : Option String) (clock : Clock) {s : System}
    → IsConfig config
    → Reach (start config name clock) s
    → IsSound s.breaker
reachable-IsSound config name clock {s} h r =
    valid-IsSound s.breaker (reachable-IsSafe config name clock h r).valid

-- However concurrent calls interleave, a half-open period admits at most the permitted number of
-- probes, and what it has admitted and what it can still admit make that number.
pub reachable-probes :
    (config : Config) (name : Option String) (clock : Clock) {s : System}
    → IsConfig config
    → Reach (start config name clock) s
    → s.breaker.state ≡ half_open
    → (s.admitted ≤ s.breaker.config.permitted_number_of_calls_in_half_open_state)
      × (s.admitted + s.breaker.half_open_allowed
          ≡ s.breaker.config.permitted_number_of_calls_in_half_open_state)
reachable-probes config name clock h r half =
    let all = (reachable-IsSafe config name clock h r).probes half in (omega (arith, all), all)
