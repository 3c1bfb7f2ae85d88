-- ===== src/Fallback/Outcomes.antt =====
-- src/pysilience/fallback.py: which exceptions leave `execute`, and what it tells its listeners.
use pysilience.Prelude.{
  ℕ, ◌+◌, ◌≡◌, refl, ◌∙◌, List, [], ◌∷◌, if◌then◌else◌, true, false, ◌⊎◌, inl, inr, length,
  Bool-cases, arith,
}
use pysilience.Python.{Class, Exc, non_empty, Result, ok, raise, is_instance, is_exception}
use pysilience.Fallback.Handler.{
  Config, Fallback, should_fallback, after_action, invoke_fallback, on_result, execute,
}

-- An exception is eligible if it is an instance of a class of `fallback_on` and of none of `raise_on`.
abbrev pub IsEligible : Config → Exc → Type 0
IsEligible c exc = (is_instance exc c.fallback_on ≡ true) × (is_instance exc c.raise_on ≡ false)

abbrev pub IsRefused : Config → Exc → Type 0
IsRefused c exc = (is_instance exc c.fallback_on ≡ false) ⊎ (is_instance exc c.raise_on ≡ true)

some_class :
    (exc : Exc) (tuple : List Class) → is_instance exc tuple ≡ true → non_empty tuple ≡ true
unfolding is_instance
some_class exc [] h = ground (arith, h)
some_class exc (c ∷ tuple) h = refl

-- `_should_fallback` tells the two apart.
should_fallback-cases :
    (c : Config) (exc : Exc)
    → ((should_fallback c exc ≡ true) × IsEligible c exc)
      ⊎ ((should_fallback c exc ≡ false) × IsRefused c exc)
unfolding should_fallback
should_fallback-cases c exc = elim (Bool-cases (is_instance exc c.raise_on)) [
  | inl raised ↦ inr (rw (some_class exc c.raise_on raised, raised) refl, inr raised)
  | inr free ↦
      let same : should_fallback c exc ≡ is_instance exc c.fallback_on = ground (arith, free) in
      elim (Bool-cases (is_instance exc c.fallback_on)) [
        | inl named ↦ inl (same ∙ named, (named, free))
        | inr unnamed ↦ inr (same ∙ unnamed, inl unnamed)
      ]
]

module _ {ℓ κ} {A : Type ℓ} {W : Type κ} (action : Exc → W → Result A × W) where
  -- How many events an answer of the action makes.
  abbrev pub told : Result A → ℕ
  told (ok a) = 1
  told (raise exc) = if is_exception exc then 1 else 0

  after_action-result :
      (exc : Exc) (r : Result A) (f : Fallback)
      → ((after_action action exc r f).0 ≡ r)
        × (length (after_action action exc r f).1.events ≡ length f.events + told r)
  unfolding after_action
  after_action-result exc (ok a) f = (refl, omega arith)
  after_action-result exc (raise e) f = elim (Bool-cases (is_exception e)) [
    | inl caught ↦ (refl, rw caught (omega arith))
    | inr passes ↦ (refl, rw passes (omega arith))
  ]

  -- How a call ends, in terms of how `func` ended: a result is returned with one event, without the
  -- action; an exception that is not eligible is raised again, without the action or an event; for
  -- an eligible one the caller gets what the action gives, with one event, but for an exception of
  -- the action that is no `Exception`, which passes without one.
  abbrev pub Ends : Fallback → Result A × W → Result A × Fallback × W → Type (ℓ ⊔ κ)
  Ends f (ok a, w) (r, f', w') = (r ≡ ok a) × (w' ≡ w) × (length f'.events ≡ length f.events + 1)
  Ends f (raise exc, w) (r, f', w') =
      (IsRefused f.config exc × (r ≡ raise exc) × (f' ≡ f) × (w' ≡ w))
      ⊎ (IsEligible f.config exc
          × (r ≡ (action exc w).0)
          × (w' ≡ (action exc w).1)
          × (length f'.events ≡ length f.events + told (action exc w).0))

  on_result-Ends : (r : Result A) (f : Fallback) (w : W) → Ends f (r, w) (on_result action r f w)
  unfolding on_result invoke_fallback
  on_result-Ends (ok a) f w = (refl, refl, omega arith)
  on_result-Ends (raise exc) f w = elim (should_fallback-cases f.config exc) [
    | inl (handled, eligible) ↦
        let (same, count) = after_action-result exc (action exc w).0 f in
        rw handled (inr (eligible, same, refl, count))
    | inr (passes, refused) ↦ rw passes (inl (refused, refl, refl, refl))
  ]

  -- A call ends as `Ends` says, in terms of how `func` ended.
  pub fallback-Ends :
      (func : W → Result A × W) (f : Fallback) (w : W) → Ends f (func w) (execute action func f w)
  unfolding execute
  fallback-Ends func f w = on_result-Ends (func w).0 f (func w).1

-- An exception of one of the `raise_on` classes always reaches the caller, whatever `fallback_on`
-- says.
pub raise_on_first {ℓ κ} :
    {A : Type ℓ} {W : Type κ} (action : Exc → W → Result A × W) (func : W → Result A × W)
    (f : Fallback) (w : W) (exc : Exc)
    → (func w).0 ≡ raise exc
    → is_instance exc f.config.raise_on ≡ true
    → execute action func f w ≡ (raise exc, f, (func w).1)
unfolding execute should_fallback is_instance on_result
raise_on_first action func f w exc e raised = ground arith
