-- ===== src/Composition/FallbackRetry.antt =====
-- A fallback around a retry: src/pysilience/fallback.py over src/pysilience/retry.py. The world of the
-- fallback is the retry and the world that its callable works on.
use pysilience.Prelude.{ℕ, suc, ◌+◌, ◌-◌, ap, ◌∙◌, ◌<◌, ◌≡◌, arith, ◌⊎◌, inl, inr, false}
use mathlib.Core.Path.{subst, subst₂}
use pysilience.Python.{Exc, retries_exhausted, Result, raise}
use pysilience.Retry.Config.{IsConfig}
use pysilience.Retry.Loop.{Retry, Platform}
use pysilience.Retry.Loop.{execute as retry_execute}
use pysilience.Retry.Attempts.{is_retried, after_calls, AllRetried, CannotWait, execute-Ends}
use pysilience.Fallback.Handler.{Fallback}
use pysilience.Fallback.Handler.{execute as fallback_execute}
use pysilience.Fallback.Outcomes.{Ends, fallback-Ends}

module _ {ℓ κ} {A : Type ℓ} {W : Type κ} (platform : Platform) (func : W → Result A × W) where
  -- The retry as a callable of the fallback.
  abbrev pub retrying : Retry × W → Result A × (Retry × W)
  retrying (r, w) = let (outcome, r', w') = retry_execute platform func r w in (outcome, (r', w'))

  module _ (action : Exc → Retry × W → Result A × (Retry × W)) (f : Fallback) (r : Retry)
      (w : W) where
    -- The call of both, and the retry after it.
    abbrev pub whole : Result A × Fallback × (Retry × W)
    whole = fallback_execute action retrying f (r, w)

    abbrev pub used : Retry
    used = (retrying (r, w)).1.0

    -- The retry ended with its `k + 1`-th call, which was not to be retried.
    abbrev pub Answered : ℕ → Type (ℓ ⊔ κ)
    Answered k =
        AllRetried func r.config k w
        × (is_retried r.config (func (after_calls func k w)).0 ≡ false)
        × Ends action f ((func (after_calls func k w)).0, (used, after_calls func (suc k) w)) whole

    -- After a call that is to be retried, and the `k` before it, there was no wait.
    abbrev pub Unwaited : ℕ → Type (ℓ ⊔ κ)
    Unwaited k =
        AllRetried func r.config (suc k) w
        × (failure : Exc) × CannotWait platform r.config (1 + k) failure
        × Ends action f (raise failure, (used, after_calls func (suc k) w)) whole

    -- All `m` calls were retried.
    abbrev pub Exhausted : ℕ → Type (ℓ ⊔ κ)
    Exhausted m =
        (exc : Exc) × AllRetried func r.config m w
        × Ends action f (raise (retries_exhausted r.name m exc), (used, after_calls func m w)) whole

    retried-Ends :
        (o : Result A) (v : W)
        → (retrying (r, w)).0 ≡ o
        → (retrying (r, w)).1.1 ≡ v
        → Ends action f (o, (used, v)) whole
    retried-Ends o v same world =
        subst₂ (λ x y. Ends action f (x, (used, y)) whole) same world
          (fallback-Ends action retrying f (r, w))

    -- A call of both ends in one of three ways. After `k < max_attempts` calls that were retried comes
    -- one that is not, and the fallback deals with what that gave. Or all `max_attempts` calls were
    -- retried, and the fallback deals with `RetriesExhausted`. Or, with attempts left, there is no
    -- wait after a call that is to be retried, and the fallback deals with the `OverflowError` of the
    -- power or the exception of the sleep. To deal with a result is to return it without running the
    -- action; with an exception that is no instance of `fallback_on`, or one of `raise_on`, to raise
    -- it again; and with any other, to give what the action gives.
    pub fallback-retry :
        IsConfig r.config
        → ((k : ℕ) × (k < r.config.max_attempts) × Answered k)
          ⊎ Exhausted r.config.max_attempts
          ⊎ ((k : ℕ) × (k + 1 < r.config.max_attempts) × Unwaited k)
    fallback-retry h = elim (execute-Ends func platform r w h) [
      | inl (k, le, all, final, out, world, count) ↦
          inl (k, omega arith, (all, final, retried-Ends _ _ out world))
      | inr (inl (exc, all, raised, out, world, count)) ↦
          let e : suc (r.config.max_attempts - 1) ≡ r.config.max_attempts = omega arith in
          let first : 1 + (r.config.max_attempts - 1) ≡ suc (r.config.max_attempts - 1) =
            omega arith in
          let told = out ∙ ap (λ n. raise (retries_exhausted r.name n exc)) first in
          inr (inl (subst (λ m. Exhausted m) e (exc, all, retried-Ends _ _ told world)))
      | inr (inr (k, le, all, failure, stuck, out, world, count)) ↦
          inr (inr (k, omega arith, (all, failure, stuck, retried-Ends _ _ out world)))
    ]
