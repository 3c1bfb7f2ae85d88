-- ===== src/Bulkhead/Execute.antt =====
-- src/pysilience/bulkhead.py: when a call gets a permit, and that every call gives it back.
use native.Mathlib.Decide.{dec_lt, ℕ_discrete}
use pysilience.Prelude.{
  ℕ, ◌+◌, ◌-◌, ◌≤◌, ◌<◌, ◌≡◌, refl, ap, ◌⊎◌, inl, inr, Bool, true, false, some, List, [], ◌∷◌,
  arith, Bool-cases, ltb, ◌==◌,
}
use pysilience.Python.{bulkhead_rejected, Result, ok, raise, monotonic}
use pysilience.Bulkhead.Permits.{
  Bulkhead, sem_try, sem_wait, sync_acquire, sync_release, taken, refused, wait, async_try,
  async_acquire, async_release, tell, execute_with, execute, execute_async_with, execute_async,
}

tell-sem {ℓ} :
    {A : Type ℓ} (r : Result A) (b : Bulkhead)
    → ((tell r b).sync_sem ≡ b.sync_sem) × ((tell r b).async_n ≡ b.async_n)
unfolding tell
tell-sem (ok a) b = (refl, refl)
tell-sem (raise exc) b = ground arith

-- A refusal is made at a moment with no permit free.
abbrev Refusal : Bool × Bulkhead → Type 0
Refusal (true, b) = Unit
Refusal (false, b) = b.sync_sem ≡ 0

sem_try-Refusal : (b : Bulkhead) → Refusal (sem_try b)
unfolding sem_try
sem_try-Refusal b = elim (Bool-cases (ltb 0 b.sync_sem)) [
  | inl free ↦ rw free tt
  | inr full ↦ rw full (ground arith)
]

sem_wait-Refusal :
    (wakeups : List (Bulkhead → Bulkhead)) (b : Bulkhead) → Refusal (sem_wait wakeups b)
unfolding sem_wait
sem_wait-Refusal [] b = sem_try-Refusal b
sem_wait-Refusal (others ∷ wakeups) b = elim (Bool-cases (sem_try b).0) [
  | inl got ↦ rw (got, sem_wait) tt
  | inr full ↦ rw (full, sem_wait) (sem_wait-Refusal wakeups (others (sem_try b).1))
]

sync_acquire-Refusal :
    (wakeups : List (Bulkhead → Bulkhead)) (b : Bulkhead) → Refusal (sync_acquire wakeups b)
unfolding sync_acquire
sync_acquire-Refusal wakeups b = elim (Bool-cases (b.config.max_wait == 0)) [
  | inl at_once ↦ rw at_once (sem_try-Refusal b)
  | inr waits ↦ rw waits (sem_wait-Refusal wakeups b)
]

-- How a synchronous call ends, from the answer of `_sync_acquire`.
abbrev pub Ends {ℓ} :
    {A : Type ℓ} → (Bulkhead → Result A × Bulkhead) → Bool × Bulkhead → Result A × Bulkhead → Type ℓ
Ends func (false, b) (r, b') =
    (r ≡ raise (bulkhead_rejected b.name b.config.max_concurrent))
    × (b.sync_sem ≡ 0)
    × (b'.sync_sem ≡ b.sync_sem)
Ends func (true, b) (r, b') = (r ≡ (func b).0) × (b'.sync_sem ≡ (func b).1.sync_sem + 1)

execute_with-Ends {ℓ} :
    {A : Type ℓ} (func : Bulkhead → Result A × Bulkhead) (p : Bool) (b : Bulkhead)
    → Refusal (p, b)
    → Ends func (p, b) (execute_with p func b)
unfolding execute_with sync_release
execute_with-Ends func false b h = (refl, h, refl)
execute_with-Ends func true b h = (refl, ap (λ n. n + 1) (tell-sem (func b).0 (func b).1).0)

-- A call is rejected only at a moment when no permit is free; `func` does not run and no permit
-- changes hands. Otherwise the caller gets what `func` gave, result or exception of any class, and
-- the permit is given back after it.
pub bulkhead-Ends {ℓ} :
    {A : Type ℓ} (wakeups : List (Bulkhead → Bulkhead)) (func : Bulkhead → Result A × Bulkhead)
    (b : Bulkhead)
    → Ends func (sync_acquire wakeups b) (execute wakeups func b)
unfolding execute
bulkhead-Ends wakeups func b =
    execute_with-Ends func (sync_acquire wakeups b).0 (sync_acquire wakeups b).1
      (sync_acquire-Refusal wakeups b)

-- How one round of `_async_acquire` ends: a permit is taken only if one is free; the caller is
-- refused only with no permit free, and then either at once, since `max_wait` is zero, or after the
-- deadline; it waits only before the deadline, and for no longer than until then.
pub async_try_outcome :
    (due : ℕ) (b : Bulkhead)
    → let (answer, b') = async_try due b in
      ((answer ≡ taken) × (b'.async_n + 1 ≡ b.async_n))
      ⊎ ((answer ≡ refused)
          × (b.async_n ≡ 0)
          × (b'.async_n ≡ 0)
          × ((b.config.max_wait ≡ 0) ⊎ (due ≤ b'.clock.now)))
      ⊎ ((t : ℕ) × (answer ≡ wait t) × (b.async_n ≡ 0) × (0 < t) × (b'.clock.now + t ≡ due))
unfolding async_try
async_try_outcome due b = elim (dec_lt 0 b.async_n) [
  | yes free ↦ inl (ground arith, ground arith)
  | no full ↦ elim (ℕ_discrete b.config.max_wait 0) [
    | yes at_once ↦ inr (inl (ground arith, omega arith, ground arith, inl at_once))
    | no waits ↦ elim (dec_lt (monotonic b.clock).now due) [
      | yes early ↦ inr (
          inr (due - (monotonic b.clock).now, ground arith, omega arith, omega arith, ground arith))
      | no late ↦ inr (inl (ground arith, omega arith, ground arith, inr (ground arith)))
    ]
  ]
]

execute_async_with-Ends {ℓ} :
    {A : Type ℓ} (factory : Bulkhead → Result A × Bulkhead) (b : Bulkhead)
    → let (r, b') = execute_async_with taken factory b in
      (r ≡ some (factory b).0) × (b'.async_n ≡ (factory b).1.async_n + 1) × (b'.async_wake ≡ true)
unfolding execute_async_with async_release
execute_async_with-Ends factory b =
    (refl, ap (λ n. n + 1) (tell-sem (factory b).0 (factory b).1).1, refl)

-- An asynchronous call that got its permit gives it back whatever ends the factory, a cancellation
-- included, and wakes the callers that wait; its caller gets what the factory gave.
pub execute_async-gives_back {ℓ} :
    {A : Type ℓ} (wakeups : List (Bulkhead → Bulkhead)) (factory : Bulkhead → Result A × Bulkhead)
    (b : Bulkhead)
    → (async_acquire wakeups b).0 ≡ taken
    → let during = (factory (async_acquire wakeups b).1) in
      let (r, b') = execute_async wakeups factory b in
      (r ≡ some during.0) × (b'.async_n ≡ during.1.async_n + 1) × (b'.async_wake ≡ true)
unfolding execute_async
execute_async-gives_back wakeups factory b e =
    rw e (execute_async_with-Ends factory (async_acquire wakeups b).1)
