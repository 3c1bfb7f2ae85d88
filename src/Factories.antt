-- ===== src/Factories.antt =====
-- The functions `create_...` of src/pysilience together: one instance of each pattern under one name.
use text.Mathlib.TextEquality.{eq_iff}
use pysilience.Prelude.{
  ℕ, ◌≡◌, ◌≢◌, refl, String, true, Option, none, some, List, [], ◌∷◌, inl, inr, All, if◌then◌else◌,
}
use pysilience.Python.{Result, ok, raise, Clock}
use pysilience.Core.Registry.{Key, same_key, get}
use pysilience.Core.Factory.{register_if, register_if-outcome}
use pysilience.CircuitBreaker.Breaker.{Breaker}
use pysilience.CircuitBreaker.Decorator.{create_circuit_breaker}
use pysilience.Retry.Loop.{Retry}
use pysilience.Retry.Decorator.{create_retry}
use pysilience.Bulkhead.Permits.{Bulkhead}
use pysilience.Bulkhead.Decorator.{create_bulkhead}
use pysilience.RateLimiter.Limiter.{RateLimiter}
use pysilience.RateLimiter.Decorator.{create_rate_limiter}
use pysilience.Timeout.Limiter.{Timeout}
use pysilience.Timeout.Decorator.{create_timeout}
use pysilience.Fallback.Handler.{Fallback}
use pysilience.Fallback.Decorator.{create_fallback}
use pysilience.Cache.Coordination.{Cache}
use pysilience.Cache.Decorator.{create_cache}

-- What the registry holds: an instance of any of the patterns; the backends of caches are of type `B`.
pub data Instance (K B : Type 0) : Type 0 where
  of_circuit_breaker : Breaker → Instance K B
  of_retry : Retry → Instance K B
  of_bulkhead : Bulkhead → Instance K B
  of_rate_limiter : RateLimiter → Instance K B
  of_timeout : Timeout → Instance K B
  of_fallback : Fallback → Instance K B
  of_cache : Cache K B → Instance K B

-- The answer of a creation as an object of the registry.
abbrev object_of {ℓ κ} : {A : Type ℓ} {I : Type κ} → (A → I) → Result A → Option I
object_of as_object (ok a) = some (as_object a)
object_of as_object (raise exc) = none

-- `_instances`
abbrev Instances : Type 0 → Type 0 → Type 0
Instances K B = List (Key × Instance K B)

module _ (K : Type 0) {B : Type 0} (per_second : ℕ) (clock : Clock) (backend : B)
    (name : String) where
  -- One call of `create_...` for each kind, with the default configuration, by the name of the kind:
  -- what it answers, and the registry after it.
  abbrev pub creations : List (String × (Instances K B → Option (Instance K B) × Instances K B))
  creations =
      (
        "circuitbreaker",
        λ d.
            let (r, d') =
              create_circuit_breaker of_circuit_breaker per_second none name true clock d in
            (object_of of_circuit_breaker r, d'),
      )
      ∷ (
        "retry",
        λ d.
            let (r, d') = create_retry of_retry per_second none name true d in
            (object_of of_retry r, d'),
      )
      ∷ (
        "bulkhead",
        λ d.
            let (r, d') = create_bulkhead of_bulkhead per_second none name true clock d in
            (object_of of_bulkhead r, d'),
      )
      ∷ (
        "ratelimiter",
        λ d.
            let (r, d') = create_rate_limiter of_rate_limiter per_second none name true clock d in
            (object_of of_rate_limiter r, d'),
      )
      ∷ (
        "timeout",
        λ d.
            let (r, d') = create_timeout of_timeout per_second none name true clock d in
            (object_of of_timeout r, d'),
      )
      ∷ (
        "fallback",
        λ d.
            let (r, d') = create_fallback of_fallback per_second none name true d in
            (object_of of_fallback r, d'),
      )
      ∷ (
        "cache",
        λ d.
            let (r, d') = create_cache of_cache none name true backend d in
            (object_of of_cache r, d'),
      )
      ∷ []

  -- A creation gives an instance, which is then found under its kind and the name; every other kind
  -- and name keeps its answer.
  abbrev pub IsCreation : String × (Instances K B → Option (Instance K B) × Instances K B) → Type 0
  IsCreation creation =
      (d : Instances K B)
      → (i : Instance K B) × (((creation.1 d).0 ≡ some i)
          × ((k n : String)
              → get k n (creation.1 d).1
                ≡ (if same_key (creation.0, name) (k, n) then some i else get k n d)))

  register_if-IsCreation :
      {A : Type 0} (as_object : A → Instance K B) (kind : String) (a : A)
      → name ≢ ""
      → IsCreation (
        kind,
        λ d. let (r, d') = register_if as_object true kind name a d in (object_of as_object r, d'),
      )
  register_if-IsCreation as_object kind a named d =
      elim (register_if-outcome as_object true kind name a d) [
        | inl (empty, _, _) ↦ absurd (named ((eq_iff name "").0 empty))
        | inr (_, answered, found) ↦ (as_object a, (rw answered refl, found))
      ]

  -- Under a name that is not empty, each of the functions `create_...` gives an instance, makes `get`
  -- return it for its own kind and the name, and leaves every other kind and name its answer.
  pub create-IsCreation : name ≢ "" → All IsCreation creations
  unfolding create_circuit_breaker create_retry create_bulkhead create_rate_limiter create_timeout
      create_fallback create_cache
  create-IsCreation named = (
    register_if-IsCreation of_circuit_breaker "circuitbreaker" _ named,
    (
      register_if-IsCreation of_retry "retry" _ named,
      (
        register_if-IsCreation of_bulkhead "bulkhead" _ named,
        (
          register_if-IsCreation of_rate_limiter "ratelimiter" _ named,
          (
            register_if-IsCreation of_timeout "timeout" _ named,
            (
              register_if-IsCreation of_fallback "fallback" _ named,
              (register_if-IsCreation of_cache "cache" _ named, tt),
            ),
          ),
        ),
      ),
    ),
  )
