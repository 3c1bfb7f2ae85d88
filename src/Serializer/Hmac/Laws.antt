-- ===== src/Serializer/Hmac/Laws.antt =====
-- src/pysilience/cache_serializer_hmac.py: what a signed entry is, and which secrets are taken.
use pysilience.Prelude.{
  ◌≡◌, refl, sym, ap, ◌∙◌, ◌⊎◌, inl, inr, [], ◌++◌, length, take, drop, ltb, Bool-cases,
  take-append_drop, take-append, drop-append_length, length-append, arith, true, false, ◌∷◌,
}
use pysilience.Python.{
  Exc, value_error, unpickling_error_class, is_instance, Result, ok, raise, Bytes, same_bytes,
  same_bytes_iff,
}
use pysilience.Serializer.Protocol.{RoundTrips, Refuses, IsValueError}
use pysilience.Serializer.Hmac.{
  Pickle, sign, unpickled, verify_and_load, dumps, loads, hmac_serializer,
}

raised-IsValueError {ℓ} :
    {V : Type ℓ} (exc : Exc) → Path (Result V) (raise value_error) (raise exc) → IsValueError exc
unfolding is_instance
raised-IsValueError exc e = ground (arith, e)

unpickled_error {ℓ} :
    {V : Type ℓ} (err : Exc)
    → is_instance err (unpickling_error_class ∷ []) ≡ true
    → unpickled {V = V} (raise err) ≡ raise value_error
unfolding unpickled
unpickled_error err h = rw h refl

unpickled-IsValueError {ℓ} :
    {V : Type ℓ} (r : Result V) (exc : Exc)
    → ((err : Exc) → r ≡ raise err → is_instance err (unpickling_error_class ∷ []) ≡ true)
    → unpickled r ≡ raise exc
    → IsValueError exc
unfolding unpickled
unpickled-IsValueError (ok v) exc h e = absurd (ground (arith, e))
unpickled-IsValueError (raise err) exc h e =
    raised-IsValueError exc (sym (unpickled_error err (h err refl)) ∙ e)

module _ {ℓ} {V : Type ℓ} (hmac_digest : Bytes → Bytes → Bytes) (pickle : Pickle V) where
  -- What is loaded is refused by a `ValueError`, or it is what `sign` gives for a payload and the
  -- secret, and only then is that payload unpickled, with `UnpicklingError` turned into
  -- `ValueError`.
  pub loads-authentic :
      (secret raw : Bytes)
      → (loads hmac_digest pickle secret raw ≡ raise value_error)
        ⊎ ((payload : Bytes) × ((raw ≡ sign hmac_digest payload secret)
              × (loads hmac_digest pickle secret raw ≡ unpickled (pickle.loads payload))))
  unfolding loads verify_and_load sign
  loads-authentic secret raw = elim (Bool-cases (ltb (length raw) 32)) [
    | inl short ↦ inl (rw short refl)
    | inr long ↦ elim (Bool-cases (same_bytes (take 32 raw) (hmac_digest secret (drop 32 raw)))) [
      | inr forged ↦ inl (rw long (rw forged refl))
      | inl signed ↦ inr (
        drop 32 raw,
        (
          sym (take-append_drop 32 raw)
              ∙ ap (λ s. s ++ drop 32 raw) ((same_bytes_iff _ _).0 signed),
          rw long (rw signed refl),
        ),
      )
    ]
  ]

  take-sign :
      (secret payload : Bytes)
      → length (hmac_digest secret payload) ≡ 32
      → take 32 (sign hmac_digest payload secret) ≡ hmac_digest secret payload
  unfolding sign
  take-sign secret payload size = take-append 32 (hmac_digest secret payload) payload size

  drop-sign :
      (secret payload : Bytes)
      → length (hmac_digest secret payload) ≡ 32
      → drop 32 (sign hmac_digest payload secret) ≡ payload
  unfolding sign
  drop-sign secret payload size = drop-append_length 32 (hmac_digest secret payload) payload size

  long-sign :
      (secret payload : Bytes)
      → length (hmac_digest secret payload) ≡ 32
      → ltb (length (sign hmac_digest payload secret)) 32 ≡ false
  unfolding sign
  long-sign secret payload size =
      ground (arith, size, length-append (hmac_digest secret payload) payload)

  -- If digests have 32 bytes, loading what `sign` made of a payload unpickles that payload.
  loads-sign :
      (secret payload : Bytes)
      → length (hmac_digest secret payload) ≡ 32
      → loads hmac_digest pickle secret (sign hmac_digest payload secret)
        ≡ unpickled (pickle.loads payload)
  unfolding loads verify_and_load
  loads-sign secret payload size = rw (long-sign secret payload size) (
      rw (take-sign secret payload size) (
        rw (drop-sign secret payload size) (
          rw ((same_bytes_iff (hmac_digest secret payload) (hmac_digest secret payload)).1 refl)
            refl)))

  -- If digests have 32 bytes and `pickle` restores the value, then loading with the same secret what
  -- was dumped gives the value back.
  pub loads-dumps :
      (secret data_ : Bytes) (value : V)
      → length (hmac_digest secret data_) ≡ 32
      → pickle.dumps value ≡ ok data_
      → pickle.loads data_ ≡ ok value
      → RoundTrips (hmac_serializer hmac_digest pickle secret) value
  unfolding dumps unpickled
  loads-dumps secret data_ value size dumped loaded = (
    sign hmac_digest data_ secret,
    (rw dumped refl, loads-sign secret data_ size ∙ rw loaded refl),
  )

  -- If `pickle` raises nothing but `UnpicklingError` for a payload, `loads` refuses by `ValueError`.
  pub loads-Refuses :
      (secret : Bytes)
      → ((payload : Bytes) (exc : Exc)
          → pickle.loads payload ≡ raise exc
          → is_instance exc (unpickling_error_class ∷ []) ≡ true)
      → Refuses (hmac_serializer hmac_digest pickle secret)
  loads-Refuses secret h raw exc e = elim (loads-authentic secret raw) [
    | inl refused ↦ raised-IsValueError exc (sym refused ∙ e)
    | inr (payload, (_, loaded)) ↦
        unpickled-IsValueError (pickle.loads payload) exc (h payload) (sym loaded ∙ e)
  ]
