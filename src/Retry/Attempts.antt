-- ===== src/Retry/Attempts.antt =====
-- src/pysilience/retry.py: how often the loop of `execute` calls `func`, and how it ends.
use pysilience.Prelude.{
  ℕ, zero, suc, ◌+◌, ◌-◌, ◌≤◌, ◌<◌, ◌≡◌, refl, ap, sym, ◌⊎◌, inl, inr, Bool, true, false, ◌&&◌,
  none, some, length, ◌∷◌, leb, String, arith, Bool-cases,
}
use mathlib.Core.Path.{subst, subst₃}
use pysilience.Python.{
  Exc, retries_exhausted, overflow_error, Quotient, Result, ok, raise, is_exception,
}
use pysilience.Retry.Config.{Config, IsConfig, EventType}
use pysilience.Retry.Loop.{
  Retry, Uniform, Platform, Verdict, overflows, after_sleep, after_wait, wait_seconds_before_retry,
  classifies_retryable, wait_and_retry, emit, stop, again, on_exception, on_result, attempts,
  execute,
}

-- A call that ended so is tried again, if attempts are left.
abbrev pub is_retried {ℓ} : {A : Type ℓ} → Config → Result A → Bool
is_retried c (ok _) = false
is_retried c (raise exc) = is_exception exc && classifies_retryable c exc

-- What a round leaves alone when it goes on, and that it sleeps once.
record GoesOn (before after : Retry) : Type 0 where
  same_config : after.config ≡ before.config
  same_name : after.name ≡ before.name
  slept : length after.sleeps ≡ length before.sleeps + 1

-- There is no wait after the `n`-th call: the power overflows, or the sleep raises.
abbrev pub CannotWait : Platform → Config → ℕ → Exc → Type 0
CannotWait u c n failure =
    ((overflows c.multiplier (n - 1) ≡ true) × (failure ≡ overflow_error))
    ⊎ ((wait : Quotient) × ((draw : ℕ) × ((i : ℕ) × ((wait_seconds_before_retry u.uniform c draw n
                ≡ ok wait)
              × (u.sleep wait i ≡ raise failure)))))

-- Nothing but the power raises while a wait is computed.
overflow_only :
    (uniform : Uniform) (c : Config) (draw n : ℕ) (failure : Exc)
    → wait_seconds_before_retry uniform c draw n ≡ raise failure
    → (overflows c.multiplier (n - 1) ≡ true) × (failure ≡ overflow_error)
unfolding wait_seconds_before_retry
overflow_only uniform c draw n failure e =
    elim (Bool-cases (leb 1 n && overflows c.multiplier (n - 1))) [
      | inl over ↦ (ground (arith, over), ground (arith, rw over at e))
      | inr fits ↦ absurd (ground (arith, rw fits at e))
    ]

module _ {ℓ} {A : Type ℓ} (u : Platform) (n : ℕ) (r : Retry) where
  -- A round that ends without a verdict on the call.
  abbrev FailsToWait : Verdict A → Type ℓ
  FailsToWait v =
      (failure : Exc) × ((r' : Retry) × ((v ≡ stop (raise failure) r')
          × (CannotWait u r.config n failure × (r'.sleeps ≡ r.sleeps))))

  abbrev Continues : Verdict A → Type ℓ
  Continues v = (r' : Retry) × ((v ≡ again r') × GoesOn r r')

  after_sleep-cases :
      (wait : Quotient) (told : Retry) (slept : Result (Unit {0}))
      → told.config ≡ r.config
      → told.name ≡ r.name
      → told.sleeps ≡ r.sleeps
      → wait_seconds_before_retry u.uniform r.config r.draws n ≡ ok wait
      → u.sleep wait (length r.sleeps) ≡ slept
      → Continues (after_sleep wait told slept) ⊎ FailsToWait (after_sleep wait told slept)
  unfolding after_sleep
  after_sleep-cases wait told (ok _) c m s e d = inl (
    record told { sleeps = wait ∷ told.sleeps },
    (refl, record { same_config = c; same_name = m; slept = omega (arith, ap length s) }),
  )
  after_sleep-cases wait told (raise failure) c m s e d =
      inr (failure, (told, (refl, (inr (wait, (r.draws, (length r.sleeps, (e, d)))), s))))

  after_wait-cases :
      (exc : Exc) (computed : Result Quotient)
      → wait_seconds_before_retry u.uniform r.config r.draws n ≡ computed
      → Continues (after_wait u n exc r computed) ⊎ FailsToWait (after_wait u n exc r computed)
  unfolding after_wait
  after_wait-cases exc (ok wait) e = after_sleep-cases wait _ _ refl refl refl e refl
  after_wait-cases exc (raise failure) e =
      inr (failure, (r, (refl, (inl (overflow_only u.uniform r.config r.draws n failure e), refl))))

  on_result-again :
      (result : Result A)
      → is_retried r.config result ≡ true
      → n < r.config.max_attempts
      → Continues (on_result u n result r) ⊎ FailsToWait (on_result u n result r)
  unfolding on_result on_exception wait_and_retry
  on_result-again (ok a) e h = cc
  on_result-again (raise exc) e h =
      let tried : on_result {A = A} u n (raise exc) r ≡ wait_and_retry u n exc r = ground arith in
      rw tried (after_wait-cases exc _ refl)

  on_result-stop :
      (result : Result A)
      → is_retried r.config result ≡ false
      → (r' : Retry) × (on_result u n result r ≡ stop result r') × (r'.sleeps ≡ r.sleeps)
  unfolding on_result on_exception
  on_result-stop (ok a) e = (_, refl, refl)
  on_result-stop (raise exc) e = elim (Bool-cases (is_exception exc)) [
    | inl caught ↦ (emit EventType.non_retryable n none (some exc) r, ground arith, refl)
    | inr passes ↦ (r, rw passes, refl)
  ]

  on_result-last :
      (result : Result A)
      → is_retried r.config result ≡ true
      → r.config.max_attempts ≤ n
      → (exc : Exc) × (result ≡ raise exc)
        × (r' : Retry) × (on_result u n result r ≡ stop (raise (retries_exhausted r.name n exc)) r')
        × (r'.sleeps ≡ r.sleeps)
  unfolding on_result on_exception
  on_result-last (ok a) e h = cc
  on_result-last (raise exc) e h =
      (exc, refl, emit EventType.exhausted n none (some exc) r, ground arith, refl)

module _ {ℓ κ} {A : Type ℓ} {W : Type κ} (func : W → Result A × W) where
  -- The world after the first `k` calls of `func`.
  abbrev pub after_calls : ℕ → W → W
  after_calls zero w = w
  after_calls (suc k) w = after_calls k (func w).1

  -- The first `k` calls all end in a way that is retried.
  abbrev pub AllRetried : Config → ℕ → W → Type 0
  AllRetried c zero w = Unit
  AllRetried c (suc k) w = (is_retried c (func w).0 ≡ true) × AllRetried c k (func w).1

  module _ (u : Platform) where
    attempts-again :
        (left n : ℕ) (r r' : Retry) (w : W)
        → on_result u n (func w).0 r ≡ again r'
        → attempts u func (suc left) n r w ≡ attempts u func left (n + 1) r' (func w).1
    unfolding attempts
    attempts-again left n r r' w e = rw (e, attempts)

    attempts-stop :
        (left n : ℕ) (r r' : Retry) (w : W) (outcome : Result A)
        → on_result u n (func w).0 r ≡ stop outcome r'
        → attempts u func (suc left) n r w ≡ (outcome, r', (func w).1)
    unfolding attempts
    attempts-stop left n r r' w outcome e = rw (e, attempts)

  -- How the loop ends, from its `n`-th round with `left + 1` rounds to go: with a call that is not
  -- retried, after `k` that were; with `RetriesExhausted`; or because there is no wait after a call
  -- that is to be retried. `slept` is the number of sleeps so far.
  module _ (u : Platform) where
    abbrev pub Ends : Config → String → ℕ → ℕ → ℕ → W → Result A × Retry × W → Type (ℓ ⊔ κ)
    Ends c name slept left n w (outcome, r', w') =
        ((k : ℕ) × (k ≤ left)
          × AllRetried c k w
          × (is_retried c (func (after_calls k w)).0 ≡ false)
          × (outcome ≡ (func (after_calls k w)).0)
          × (w' ≡ after_calls (suc k) w)
          × (length r'.sleeps ≡ slept + k))
        ⊎ ((exc : Exc) × AllRetried c (suc left) w
            × ((func (after_calls left w)).0 ≡ raise exc)
            × (outcome ≡ raise (retries_exhausted name (n + left) exc))
            × (w' ≡ after_calls (suc left) w)
            × (length r'.sleeps ≡ slept + left))
        ⊎ ((k : ℕ) × (k < left)
            × AllRetried c (suc k) w
            × (failure : Exc) × CannotWait u c (n + k) failure
            × (outcome ≡ raise failure)
            × (w' ≡ after_calls (suc k) w)
            × (length r'.sleeps ≡ slept + k))

    Ends-earlier :
        (c : Config) (name : String) (slept left n : ℕ) (w : W) (x : Result A × Retry × W)
        → is_retried c (func w).0 ≡ true
        → Ends c name (slept + 1) left (n + 1) (func w).1 x
        → Ends c name slept (suc left) n w x
    Ends-earlier c name slept left n w (o, r, w') retried
          (inl (k, le, all, final, out, world, count)) =
        inl (suc k, omega arith, (retried, all), final, out, world, omega arith)
    Ends-earlier c name slept left n w (o, r, w') retried
          (inr (inl (exc, all, final, out, world, count))) =
        let same : n + 1 + left ≡ n + suc left = omega arith in
        inr (inl (exc, (retried, all), final, rw same at out, world, omega arith))
    Ends-earlier c name slept left n w (o, r, w') retried
          (inr (inr (k, le, all, failure, stuck, out, world, count))) =
        let same : n + 1 + k ≡ n + suc k = omega arith in
        inr (
          inr (
            suc k,
            omega arith,
            (retried, all),
            failure,
            subst (λ m. CannotWait u c m failure) same stuck,
            out,
            world,
            omega arith,
          ))

    -- A round whose call is not retried ends the loop.
    Ends-final :
        (left n : ℕ) (r : Retry) (w : W)
        → is_retried r.config (func w).0 ≡ false
        → Ends r.config r.name (length r.sleeps) left n w (attempts u func (suc left) n r w)
    Ends-final left n r w final =
        let (r', stops, same) = on_result-stop u n r (func w).0 final in
        rw (attempts-stop u left n r r' w (func w).0 stops)
          (inl (0, omega arith, tt, final, refl, refl, omega (arith, ap length same)))

    -- A round after which there is no wait ends it too.
    Ends-stuck :
        (left n : ℕ) (r : Retry) (w : W)
        → is_retried r.config (func w).0 ≡ true
        → FailsToWait u n r (on_result u n (func w).0 r)
        → Ends r.config r.name
            (length r.sleeps)
            (suc left)
            n
            w
            (attempts u func (suc (suc left)) n r w)
    Ends-stuck left n r w retried (failure, (r', (stops, (stuck, same)))) =
        let here : n ≡ n + 0 = omega arith in
        rw (attempts-stop u (suc left) n r r' w (raise failure) stops) (
          inr (
            inr (
              0,
              omega arith,
              (retried, tt),
              failure,
              subst (λ m. CannotWait u r.config m failure) here stuck,
              refl,
              refl,
              omega (arith, ap length same),
            )))

    attempts-Ends :
        (left n : ℕ) (r : Retry) (w : W)
        → n + left ≡ r.config.max_attempts
        → Ends r.config r.name (length r.sleeps) left n w (attempts u func (suc left) n r w)
    attempts-Ends zero n r w h = elim (Bool-cases (is_retried r.config (func w).0)) [
      | inr final ↦ Ends-final zero n r w final
      | inl retried ↦
          let (exc, raised, r', stops, same) =
            on_result-last u n r (func w).0 retried (omega arith) in
          let whole : n + 0 ≡ n = omega arith in
          rw (attempts-stop u zero n r r' w _ stops)
            (inr (inl (exc, (retried, tt), raised, rw whole, refl, omega (arith, ap length same))))
    ]
    attempts-Ends (suc left) n r w h = elim (Bool-cases (is_retried r.config (func w).0)) [
      | inr final ↦ Ends-final (suc left) n r w final
      | inl retried ↦ elim (on_result-again u n r (func w).0 retried (omega arith)) [
        | inr stuck ↦ Ends-stuck left n r w retried stuck
        | inl (r', (goes, on)) ↦
            let later =
              attempts-Ends left (n + 1) r' (func w).1
                (omega (arith, ap (λ (c : Config). c.max_attempts) on.same_config)) in
            rw (attempts-again u (suc left) n r r' w goes) (
              Ends-earlier r.config r.name (length r.sleeps) left n w
                (attempts u func (suc left) (n + 1) r' (func w).1) retried
                (subst₃
                  (λ c name slept.
                    Ends c name slept left (n + 1) (func w).1
                      (attempts u func (suc left) (n + 1) r' (func w).1))
                  on.same_config on.same_name on.slept later))
      ]
    ]

    -- `execute` always ends, and in one of three ways. Its result is that of the call after
    -- `k < max_attempts` calls that were retried: the first that succeeds or that is not to be
    -- retried. Or all `max_attempts` calls were retried, and it raises `RetriesExhausted` with that
    -- number and the last exception. Or, after a call that is to be retried, and with attempts left,
    -- there is no wait, since the power of the multiplier overflows, in which case it raises
    -- `OverflowError`, or since the sleep raises, whose exception it raises. Nothing is called
    -- afterwards, and it sleeps once between two calls.
    pub execute-Ends :
        (r : Retry) (w : W)
        → IsConfig r.config
        → Ends r.config r.name
            (length r.sleeps)
            (r.config.max_attempts - 1)
            1
            w
            (execute u func r w)
    unfolding execute
    execute-Ends r w h =
        let e : r.config.max_attempts ≡ suc (r.config.max_attempts - 1) = omega arith in
        subst
          (λ m.
            Ends r.config r.name (length r.sleeps) (r.config.max_attempts - 1) 1 w
              (attempts u func m 1 r w))
          (sym e) (attempts-Ends (r.config.max_attempts - 1) 1 r w (omega arith))
