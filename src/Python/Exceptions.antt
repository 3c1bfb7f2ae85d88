-- ===== src/Python/Exceptions.antt =====
-- Exceptions as values. A class is a number; an exception knows the classes that it is an instance
-- of (the method resolution order of its class), and the library's own exceptions carry their
-- attributes: `CircuitBreakerOpen`, `RetriesExhausted`, `BulkheadRejected`, `RateLimitExceeded`, `OperationTimeout`.
use pysilience.Prelude.{
  ℕ, String, Bool, true, false, Option, List, [], ◌∷◌, any_of, ◌==◌, ◌≡◌, refl, ◌⊎◌, inl, inr,
}
use pysilience.Python.Quotients.{Quotient}

abbrev pub Class : Type 0
Class = ℕ

abbrev pub base_exception_class : Class
base_exception_class = 0

abbrev pub exception_class : Class
exception_class = 1

abbrev pub value_error_class : Class
value_error_class = 2

abbrev pub runtime_error_class : Class
runtime_error_class = 3

abbrev pub key_error_class : Class
key_error_class = 4

abbrev pub circuit_breaker_open_class : Class
circuit_breaker_open_class = 5

abbrev pub retries_exhausted_class : Class
retries_exhausted_class = 6

abbrev pub bulkhead_rejected_class : Class
bulkhead_rejected_class = 7

abbrev pub rate_limit_exceeded_class : Class
rate_limit_exceeded_class = 8

-- `concurrent.futures.TimeoutError` and `asyncio.TimeoutError`, which recent versions of Python
-- identify with `TimeoutError`.
abbrev pub timeout_error_class : Class
timeout_error_class = 9

abbrev pub operation_timeout_class : Class
operation_timeout_class = 10

abbrev pub type_error_class : Class
type_error_class = 11

-- `pickle.UnpicklingError`
abbrev pub unpickling_error_class : Class
unpickling_error_class = 12

abbrev pub unicode_decode_error_class : Class
unicode_decode_error_class = 13

-- `json.JSONDecodeError`
abbrev pub json_decode_error_class : Class
json_decode_error_class = 14

abbrev pub recursion_error_class : Class
recursion_error_class = 15

-- `asyncio.CancelledError`, which is no `Exception`
abbrev pub cancelled_error_class : Class
cancelled_error_class = 16

abbrev pub overflow_error_class : Class
overflow_error_class = 17

-- `other mro payload` is an exception of a class outside the library, with its classes.
pub data Exc : Type 0 where
  other : List Class → ℕ → Exc
  value_error runtime_error key_error : Exc
  circuit_breaker_open : String → Option ℕ → Exc
  retries_exhausted : String → ℕ → Exc → Exc
  bulkhead_rejected : String → ℕ → Exc
  rate_limit_exceeded : String → ℕ → Quotient → Exc
  operation_timeout : String → ℕ → ℕ → Exc

abbrev pub type_error : Exc
type_error = other (type_error_class ∷ exception_class ∷ base_exception_class ∷ []) 0

abbrev pub cancelled_error : Exc
cancelled_error = other (cancelled_error_class ∷ base_exception_class ∷ []) 0

abbrev pub overflow_error : Exc
overflow_error = other (overflow_error_class ∷ exception_class ∷ base_exception_class ∷ []) 0

-- What the interpreter raises at its recursion limit.
abbrev pub recursion_error : Exc
recursion_error =
    other
      (recursion_error_class ∷ runtime_error_class ∷ exception_class ∷ base_exception_class ∷ []) 0

-- The classes that an exception is an instance of.
abbrev pub classes : Exc → List Class
classes (other mro _) = mro
classes value_error = value_error_class ∷ exception_class ∷ base_exception_class ∷ []
classes runtime_error = runtime_error_class ∷ exception_class ∷ base_exception_class ∷ []
classes key_error = key_error_class ∷ exception_class ∷ base_exception_class ∷ []
classes (circuit_breaker_open _ _) =
    circuit_breaker_open_class ∷ exception_class ∷ base_exception_class ∷ []
classes (retries_exhausted _ _ _) =
    retries_exhausted_class ∷ exception_class ∷ base_exception_class ∷ []
classes (bulkhead_rejected _ _) =
    bulkhead_rejected_class ∷ exception_class ∷ base_exception_class ∷ []
classes (rate_limit_exceeded _ _ _) =
    rate_limit_exceeded_class ∷ exception_class ∷ base_exception_class ∷ []
classes (operation_timeout _ _ _) =
    operation_timeout_class ∷ exception_class ∷ base_exception_class ∷ []

-- `isinstance(exc, tuple_of_classes)`
unfoldable pub is_instance : Exc → List Class → Bool
is_instance exc tuple = any_of (λ c. any_of (λ k. k == c) (classes exc)) tuple

-- Whether `except Exception` catches it.
unfoldable pub is_exception : Exc → Bool
unfolding is_instance
is_exception exc = is_instance exc (exception_class ∷ [])

-- The truth value of a tuple.
abbrev pub non_empty {ℓ} : {A : Type ℓ} → List A → Bool
non_empty [] = false
non_empty (_ ∷ _) = true

-- How a call ends.
pub data Result {ℓ} (A : Type ℓ) : Type ℓ where
  ok : A → Result A
  raise : Exc → Result A

-- `y = x` and what follows, which an exception of `x` skips.
abbrev pub and_then {ℓ κ} : {A : Type ℓ} {B : Type κ} → Result A → (A → Result B) → Result B
and_then (ok a) f = f a
and_then (raise exc) f = raise exc

pub Result-cases {ℓ} :
    {A : Type ℓ} (r : Result A) → ((a : A) × (r ≡ ok a)) ⊎ ((exc : Exc) × (r ≡ raise exc))
Result-cases (ok a) = inl (a, refl)
Result-cases (raise exc) = inr (exc, refl)
