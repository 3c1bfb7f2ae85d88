-- ===== src/Timeout/Shutdown.antt =====
-- src/pysilience/timeout.py: what `shutdown` does to later calls.
use native.Mathlib.Decide.{ℕ_discrete}
use pysilience.Prelude.{
  ℕ, ◌≡◌, ◌≢◌, refl, sym, ap, ◌⊎◌, inl, inr, Bool, true, false, ◌&&◌, List, if◌then◌else◌,
  Bool-cases,
}
use pysilience.Python.{runtime_error, raise}
use pysilience.Python.Sets.{contains, add, contains-add_self, contains-add_ne}
use pysilience.Timeout.Limiter.{Run}
use pysilience.Timeout.Limiter.{execute as limiter_execute}
use pysilience.Timeout.Resources.{Resources, shutdown, execute, submit, submitted}

abbrev left : Resources → Resources
left t = record t { owns_executor = false }

shutdown_owned :
    (closed : List ℕ) (t : Resources)
    → t.owns_executor ≡ true
    → shutdown t closed ≡ (left t, add ℕ_discrete t.executor closed)
unfolding shutdown
shutdown_owned closed t own =
    ap (λ b. if b then (left t, add ℕ_discrete t.executor closed) else (t, closed)) own

shutdown_shared :
    (closed : List ℕ) (t : Resources) → t.owns_executor ≡ false → shutdown t closed ≡ (t, closed)
unfolding shutdown
shutdown_shared closed t shared =
    ap (λ b. if b then (left t, add ℕ_discrete t.executor closed) else (t, closed)) shared

-- `execute` on a closed executor.
execute_closed {ℓ} :
    {A : Type ℓ} (can_use_signals : Bool) (run : Run A) (closed : List ℕ) (t : Resources)
    → contains ℕ_discrete t.executor closed ≡ true
    → let (answer, t') = execute can_use_signals run closed t in
      let uses_signals = t.timeout.config.use_signals && can_use_signals in
      ((uses_signals ≡ true) × (answer ≡ (limiter_execute true run t.timeout).0))
      ⊎ ((uses_signals ≡ false)
          × (answer ≡ raise runtime_error)
          × (t'.timeout.events ≡ t.timeout.events))
unfolding execute submit submitted
execute_closed can_use_signals run closed t h =
    elim (Bool-cases (t.timeout.config.use_signals && can_use_signals)) [
      | inl signals ↦ inl (signals, rw signals refl)
      | inr threads ↦ inr (threads, rw (threads, h) refl, rw (threads, h) refl)
    ]

-- Shutting down an object with the shared executor changes nothing. With an executor of its own it
-- closes that one and no other; then a second `shutdown` changes nothing, and `execute` raises
-- `RuntimeError` without an event, unless it uses a signal, in which case it answers as before.
pub shutdown-execute {ℓ} :
    {A : Type ℓ} (can_use_signals : Bool) (run : Run A) (closed : List ℕ) (t : Resources)
    → let (t', closed') = shutdown t closed in
      let (answer, t'') = execute can_use_signals run closed' t' in
      let uses_signals = t.timeout.config.use_signals && can_use_signals in
      ((t.owns_executor ≡ false) × (t' ≡ t) × (closed' ≡ closed))
      ⊎ ((t.owns_executor ≡ true)
          × (contains ℕ_discrete t.executor closed' ≡ true)
          × ((e : ℕ)
              → e ≢ t.executor
              → contains ℕ_discrete e closed' ≡ contains ℕ_discrete e closed)
          × (shutdown t' closed' ≡ (t', closed'))
          × (((uses_signals ≡ true) × (answer ≡ (limiter_execute true run t.timeout).0))
              ⊎ ((uses_signals ≡ false)
                  × (answer ≡ raise runtime_error)
                  × (t''.timeout.events ≡ t.timeout.events))))
shutdown-execute can_use_signals run closed t = elim (Bool-cases t.owns_executor) [
  | inr shared ↦
      let same = shutdown_shared closed t shared in
      inl (shared, ap (λ r. r.0) same, ap (λ r. r.1) same)
  | inl own ↦
      let held = contains-add_self ℕ_discrete t.executor closed in
      rw (shutdown_owned closed t own) (
        inr (
          own,
          held,
          (λ e other. contains-add_ne ℕ_discrete e t.executor closed (λ p. other (sym p))),
          shutdown_shared (add ℕ_discrete t.executor closed) (left t) refl,
          execute_closed can_use_signals run (add ℕ_discrete t.executor closed) (left t) held,
        ))
]
