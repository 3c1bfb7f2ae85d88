-- ===== src/Serializer/Hmac/Secrets.antt =====
-- src/pysilience/cache_serializer_hmac.py: the secrets that `__init__` takes.
use pysilience.Prelude.{
  ℕ, ltb, ◌++◌, ap, ◌≡◌, ◌≢◌, refl, String, Option, none, some, ◌⊎◌, inl, inr, [], ◌∷◌,
  if◌then◌else◌, true, false, Bool-cases, arith,
}
use Prim.Native.Char.{code}
use Prim.Native.String.{[] as no_text, ◌∷◌ as ◌then_text◌}
use text.Mathlib.Text.{◌==◌ as str_eq}
use text.Mathlib.TextEquality.{eq_iff}
use pysilience.Python.{value_error, ok, raise, Bytes, utf8, encode}
use pysilience.Serializer.Hmac.{
  Secret, as_bytes, as_text, is_truthy, or_environ, secret_bytes, init,
}

utf8_ne : (n : ℕ) (rest : Bytes) → utf8 n ++ rest ≢ []
utf8_ne n rest = elim (Bool-cases (ltb n 128)) [
  | inl one ↦ λ e. ground (arith, one, e)
  | inr more ↦ λ e. ground (arith, more, e)
]

encode_ne : (s : String) → str_eq s "" ≡ false → encode s ≢ []
encode_ne no_text h = absurd (ground arith)
encode_ne (c then_text s) h = utf8_ne (code c) (encode s)

secret_bytes_ne : (secret : Option Secret) → is_truthy secret ≡ true → secret_bytes secret ≢ []
secret_bytes_ne none h = absurd (ground arith)
secret_bytes_ne (some (as_bytes [])) h = absurd (ground arith)
secret_bytes_ne (some (as_bytes (x ∷ xs))) h = λ e. ground arith
secret_bytes_ne (some (as_text s)) h = encode_ne s (ground arith)

-- The secret that is passed, or, if that is none or empty, the one of the environment.
abbrev pub chosen : Option Secret → Option String → Option Secret
chosen secret environ = if is_truthy secret then secret else or_environ none environ

-- A serializer is made with the secret that is passed, or, if that is none or empty, with the one of
-- the environment, and never with an empty secret; if both are none or empty, `__init__` raises.
pub init-outcome :
    (secret : Option Secret) (environ : Option String)
    → ((init secret environ ≡ ok (secret_bytes (chosen secret environ)))
        × (secret_bytes (chosen secret environ) ≢ []))
      ⊎ ((init secret environ ≡ raise value_error)
          × ((is_truthy secret ≡ false) × ((environ ≡ none) ⊎ (environ ≡ some ""))))
unfolding init
init-outcome secret none = elim (Bool-cases (is_truthy secret)) [
  | inl given ↦ inl (rw given (rw given refl), rw given (secret_bytes_ne secret given))
  | inr missing ↦ inr (rw missing (rw missing refl), (missing, inl refl))
]
init-outcome secret (some s) = elim (Bool-cases (is_truthy secret)) [
  | inl given ↦ inl (rw given (rw given refl), rw given (secret_bytes_ne secret given))
  | inr missing ↦ elim (Bool-cases (str_eq s "")) [
    | inl empty ↦
        inr (
          rw missing (rw empty (rw missing refl)),
          (missing, inr (ap some ((eq_iff s "").0 empty))),
        )
    | inr named ↦
        inl (rw missing (rw named (rw named refl)), rw missing (rw named (encode_ne s named)))
  ]
]
