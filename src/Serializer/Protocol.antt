-- ===== src/Serializer/Protocol.antt =====
-- src/pysilience/cache_serializer.py: the protocol `CacheSerializer` and what it promises to the
-- backends.
use pysilience.Prelude.{◌≡◌, true, [], ◌∷◌}
use pysilience.Python.{Exc, value_error_class, is_instance, Result, ok, raise, Bytes}

pub record CacheSerializer {ℓ} (V : Type ℓ) : Type ℓ where
  pub dumps : V → Result Bytes
  pub loads : Bytes → Result V

-- Whether `except ValueError` catches it.
abbrev pub IsValueError : Exc → Type 0
IsValueError exc = is_instance exc (value_error_class ∷ []) ≡ true

-- Loading what was dumped gives the value back.
abbrev pub RoundTrips {ℓ} : {V : Type ℓ} → CacheSerializer V → V → Type ℓ
RoundTrips s v = (raw : Bytes) × ((s.dumps v ≡ ok raw) × (s.loads raw ≡ ok v))

-- `loads` refuses what it cannot read by a `ValueError` and by nothing else.
abbrev pub Refuses {ℓ} : {V : Type ℓ} → CacheSerializer V → Type ℓ
Refuses s = (raw : Bytes) (exc : Exc) → s.loads raw ≡ raise exc → IsValueError exc
