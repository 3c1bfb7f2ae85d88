-- ===== src/Core/Factory.antt =====
-- What the functions `create_...` of src/pysilience share: the instance is registered under its kind
-- and name, unless `register` is false.
use text.Mathlib.Text.{◌==◌ as str_eq}
use pysilience.Prelude.{
  ◌≡◌, refl, Bool, true, false, ◌&&◌, String, some, List, ◌⊎◌, inl, inr, if◌then◌else◌, Bool-cases,
}
use pysilience.Python.{value_error, Result, ok, raise}
use pysilience.Core.Registry.{Key, same_key, register, get, get-assign}

-- `return instance` after a call that may have raised.
abbrev returning {ℓ κ} : {A : Type ℓ} {D : Type κ} → A → Result (Unit {0}) × D → Result A × D
returning instance_ (ok _, d) = (ok instance_, d)
returning instance_ (raise exc, d) = (raise exc, d)

-- `if register: register_pattern(kind, name, instance)` and `return instance`. The registry holds
-- objects of any kind, as `as_object` makes them.
unfoldable pub register_if {ℓ κ} :
    {A : Type ℓ} {I : Type κ}
    → (A → I)
    → Bool
    → String
    → String
    → A
    → List (Key × I)
    → Result A × List (Key × I)
register_if as_object false kind name instance_ d = (ok instance_, d)
register_if as_object true kind name instance_ d =
    returning instance_ (register kind name (as_object instance_) d)

-- Creating an instance gives it back, and, unless `register` is false, makes `get` return it for its
-- kind and name and leaves every other answer as it was; to register it under the empty name raises
-- `ValueError` and changes nothing.
pub register_if-outcome {ℓ κ} :
    {A : Type ℓ} {I : Type κ} (as_object : A → I) (registers : Bool) (kind name : String)
    (instance_ : A) (d : List (Key × I))
    → let (answer, d') = register_if as_object registers kind name instance_ d in
      ((registers && str_eq name "" ≡ true) × (answer ≡ raise value_error) × (d' ≡ d))
      ⊎ ((registers && str_eq name "" ≡ false)
          × (answer ≡ ok instance_)
          × ((k n : String)
              → get k n d' ≡ (
                  if registers && same_key (kind, name) (k, n)
                  then some (as_object instance_)
                  else get k n d)))
unfolding register_if register
register_if-outcome as_object false kind name instance_ d = inr (refl, refl, λ k n. refl)
register_if-outcome as_object true kind name instance_ d = elim (Bool-cases (str_eq name "")) [
  | inl empty ↦ inl (empty, rw empty refl, rw empty refl)
  | inr named ↦
      inr (named, rw named refl, λ k n. rw named (get-assign k n kind name (as_object instance_) d))
]
