-- ===== src/Serializer/Hmac.antt =====
-- src/pysilience/cache_serializer_hmac.py: `HmacPickleSerializer`. The digest `hmac_digest` (of a
-- secret and data) and `pickle` are parameters.
pub mod Laws
pub mod Secrets
use pysilience.Prelude.{
  ◌≡◌, String, Bool, true, false, not, Option, none, some, List, [], ◌∷◌, ◌++◌, length, take, drop,
  ltb, if◌then◌else◌,
}
use text.Mathlib.Text.{◌==◌ as str_eq}
use pysilience.Python.{
  value_error, unpickling_error_class, is_instance, non_empty, Result, ok, raise, and_then, Bytes,
  encode, same_bytes,
}
use pysilience.Serializer.Protocol.{CacheSerializer}

-- A secret is given as bytes or as text.
pub data Secret : Type 0 where
  as_bytes : Bytes → Secret
  as_text : String → Secret

-- `bool(_secret)`
abbrev pub is_truthy : Option Secret → Bool
is_truthy none = false
is_truthy (some (as_bytes b)) = non_empty b
is_truthy (some (as_text s)) = not (str_eq s "")

-- `os.environ.get("PYSILIENCE_CACHE_SECRET", "")`, taken if it is not empty.
abbrev pub or_environ : Option Secret → Option String → Option Secret
or_environ secret none = secret
or_environ secret (some env_val) = if str_eq env_val "" then secret else some (as_text env_val)

-- `_secret if isinstance(_secret, bytes) else _secret.encode()`
abbrev pub secret_bytes : Option Secret → Bytes
secret_bytes none = []
secret_bytes (some (as_bytes b)) = b
secret_bytes (some (as_text s)) = encode s

-- `__init__`, which gives the field `_secret`.
unfoldable pub init : Option Secret → Option String → Result Bytes
init secret environ =
    let resolved = if is_truthy secret then secret else or_environ secret environ in
    if is_truthy resolved then ok (secret_bytes resolved) else raise value_error

-- The module `pickle`, a parameter.
pub record Pickle {ℓ} (V : Type ℓ) : Type ℓ where
  pub dumps : V → Result Bytes
  pub loads : Bytes → Result V

-- `except pickle.UnpicklingError as exc: raise ValueError(str(exc)) from exc`
unfoldable pub unpickled {ℓ} : {V : Type ℓ} → Result V → Result V
unpickled (ok v) = ok v
unpickled (raise exc) =
    if is_instance exc (unpickling_error_class ∷ []) then raise value_error else raise exc

module _ (hmac_digest : Bytes → Bytes → Bytes) where
  -- `_sign`
  unfoldable pub sign : Bytes → Bytes → Bytes
  sign data_ secret = hmac_digest secret data_ ++ data_

  module _ {ℓ} {V : Type ℓ} (pickle : Pickle V) where
    -- `_verify_and_load`
    unfoldable pub verify_and_load : Bytes → Bytes → Result V
    verify_and_load raw secret =
        if ltb (length raw) 32
        then raise value_error
        else if same_bytes (take 32 raw) (hmac_digest secret (drop 32 raw))
        then unpickled (pickle.loads (drop 32 raw))
        else raise value_error

    -- `dumps`
    unfoldable pub dumps : Bytes → V → Result Bytes
    dumps secret value = and_then (pickle.dumps value) (λ data_. ok (sign data_ secret))

    -- `loads`
    unfoldable pub loads : Bytes → Bytes → Result V
    loads secret raw = verify_and_load raw secret

    abbrev pub hmac_serializer : Bytes → CacheSerializer V
    hmac_serializer secret = record { dumps = dumps secret; loads = loads secret }
