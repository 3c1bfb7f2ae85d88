-- ===== src/Tests/HmacSerializer.antt =====
-- src/pysilience/cache_serializer_hmac.py at concrete inputs.

use pysilience.Prelude.{ℕ, zero, suc, ◌+◌, ◌≡◌, refl, none, some, [], ◌∷◌, ◌⊎◌}
use pysilience.Python.{
  is_instance, unpickling_error_class, exception_class, base_exception_class, other, value_error,
  Result, ok, raise, Bytes,
}
use pysilience.Serializer.Protocol.{RoundTrips}
use pysilience.Serializer.Hmac.{
  as_text, Pickle, init, sign, unpickled, verify_and_load, dumps, loads, hmac_serializer,
}
use pysilience.Serializer.Hmac.Laws.{loads-authentic, loads-dumps}

program : Unit {0}
unfolding is_instance init sign unpickled verify_and_load dumps loads
program = tt

abbrev zeros : ℕ → Bytes
zeros zero = []
zeros (suc n) = 0 ∷ zeros n

abbrev total : Bytes → ℕ
total [] = 0
total (n ∷ ns) = n + total ns

-- A digest of 32 bytes.
abbrev digest : Bytes → Bytes → Bytes
digest secret data_ = (total secret + total data_) ∷ zeros 31

abbrev unpickle : Bytes → Result ℕ
unpickle (n ∷ []) = ok n
unpickle _ = raise (other (unpickling_error_class ∷ exception_class ∷ base_exception_class ∷ []) 0)

abbrev pickle : Pickle ℕ
pickle = record { dumps = λ n. ok (n ∷ []); loads = unpickle }

abbrev secret : Bytes
secret = 3 ∷ 4 ∷ []

forged : loads digest pickle secret (sign digest (5 ∷ []) (9 ∷ [])) ≡ raise value_error
unfolding program
forged = refl

too_short : loads digest pickle secret (1 ∷ 2 ∷ []) ≡ raise value_error
unfolding program
too_short = refl

loads-authentic_example :
    (loads digest pickle secret (sign digest (5 ∷ []) secret) ≡ raise value_error)
    ⊎ ((payload : Bytes) × ((sign digest (5 ∷ []) secret ≡ sign digest payload secret)
          × (loads digest pickle secret (sign digest (5 ∷ []) secret)
              ≡ unpickled (pickle.loads payload))))
loads-authentic_example = loads-authentic digest pickle secret (sign digest (5 ∷ []) secret)

loads-dumps_example : RoundTrips (hmac_serializer digest pickle secret) 5
loads-dumps_example = loads-dumps digest pickle secret (5 ∷ []) 5 refl refl refl

no_secret : init (some (as_text "")) none ≡ raise value_error
unfolding program
no_secret = refl
