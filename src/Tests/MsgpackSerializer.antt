-- ===== src/Tests/MsgpackSerializer.antt =====
-- src/pysilience/cache_serializer_msgpack.py at concrete inputs: types are numbers, and the objects of
-- a type its number and a number.
use mathlib.Core.Path.{Path, subst}
use text.Mathlib.Text.{◌==◌ as str_eq}
use native.Mathlib.Decide.{ℕ_discrete}
use pysilience.Prelude.{
  ℕ, zero, suc, String, if◌then◌else◌, ◌≡◌, ◌≢◌, refl, ◌∙◌, true, Option, none, some, List, [], ◌∷◌,
  ◌⊎◌, inl, inr, All, arith,
}
use pysilience.Python.{
  value_error, type_error, is_instance, Result, ok, raise, and_then, Bytes, encode, same_bytes, ℤ,
  pos, negsuc, ℤ-discrete, Result-cases,
}
use pysilience.Python.Dict.{find, remove, assign}
use pysilience.Serializer.Protocol.{RoundTrips}
use pysilience.Serializer.Msgpack.{
  Handlers, MsgpackSerializer, PyClass, plain, class_method, init, is_instance_method,
  is_classmethod, owner_of, drop_old, install, register_at, register_type, unregister_type,
  register,
}
use pysilience.Serializer.Msgpack.Codec.{
  Msgpack, pack_as, default, ext_hook, unpacked, dumps, loads, msgpack_serializer,
}
use pysilience.Serializer.Msgpack.Builtins.{IsoFormats, time, pack_time, unpack_time, handlers_of}
use pysilience.Serializer.Msgpack.Registry.{IsConsistent}
use pysilience.Serializer.Msgpack.Registering.{Updates, register_type-outcome}
use pysilience.Serializer.Msgpack.History.{
  Operation, registration, decoration, removal, IsExpected, apply_all, registry-IsConsistent,
}
use pysilience.Serializer.Msgpack.Extensions.{Restores, IsFaithful, IsMsgpack, msgpack-loads-dumps}

program : Unit {0}
unfolding pack_time unpack_time is_instance find remove assign init is_instance_method
    is_classmethod owner_of drop_old install register_at register_type unregister_type register
    pack_as default ext_hook unpacked dumps loads ℕ_discrete ℤ-discrete
program = tt

abbrev unpack_one : Bytes → Result ℕ
unpack_one (n ∷ []) = ok n
unpack_one _ = raise value_error

abbrev handlers : Handlers ℕ
handlers = record { pack = λ n. ok (n ∷ []); unpack = unpack_one }

-- A class with both methods, and one that lacks `__unpack__`.
abbrev point : PyClass ℕ ℕ
point = record {
  typ = 3;
  mro =
      (("__pack__", record { kind = plain; is_callable = true })
        ∷ ("__unpack__", record { kind = class_method; is_callable = true })
        ∷ [])
      ∷ [];
  handlers = handlers;
}

abbrev broken : PyClass ℕ ℕ
broken = record point {
  mro = (("__pack__", record { kind = plain; is_callable = true }) ∷ []) ∷ [];
}

abbrev operations : List (Operation ℕ ℕ)
operations =
    registration 1 handlers (some (pos 64))
    ∷ registration 2 handlers (some (pos 64))
    ∷ registration 1 handlers (some (pos 65))
    ∷ registration 2 handlers (some (pos 64))
    ∷ decoration (pos 66) point
    ∷ decoration (pos 67) broken
    ∷ removal 1
    ∷ []

answers :
    (apply_all ℕ_discrete operations init).0
    ≡ ok tt ∷ raise value_error ∷ ok tt ∷ ok tt ∷ ok tt ∷ raise type_error ∷ ok tt ∷ []
unfolding program
answers = refl

registry-IsConsistent_example :
    All IsExpected (apply_all ℕ_discrete operations init).0
    × IsConsistent ℕ_discrete (apply_all ℕ_discrete operations init).1
registry-IsConsistent_example = registry-IsConsistent ℕ_discrete operations

-- One type, with the identifier 64.
abbrev one_type : MsgpackSerializer ℕ ℕ
one_type = (apply_all ℕ_discrete (registration 1 handlers (some (pos 64)) ∷ []) init).1

one_type-IsConsistent : IsConsistent ℕ_discrete one_type
one_type-IsConsistent =
    (registry-IsConsistent ℕ_discrete (registration 1 handlers (some (pos 64)) ∷ [])).1

two_ne_one : ◌≢◌ {A = ℕ} 1 2
two_ne_one = λ e. absurd (omega arith)

register_type-outcome_example :
    ((register_type ℕ_discrete 2 handlers (some (pos 64)) one_type ≡ (raise value_error, one_type))
      × ((◌≡◌ {A = Option ℤ} (some (pos 64)) none)
          ⊎ ((u : ℕ) × ((u ≢ 2) × (find ℕ_discrete u one_type.ext_by_type ≡ some (pos 64))))))
    ⊎ ((i : ℤ) × ((◌≡◌ {A = Option ℤ} (some (pos 64)) (some i))
          × (((register_type ℕ_discrete 2 handlers (some (pos 64)) one_type).0 ≡ ok tt)
              × Updates ℕ_discrete 2
                  (some (i, handlers))
                  one_type
                  (register_type ℕ_discrete 2 handlers (some (pos 64)) one_type).1)))
register_type-outcome_example =
    register_type-outcome ℕ_discrete 2 handlers (some (pos 64)) one_type one_type-IsConsistent

abbrev type_of : ℕ → ℕ
type_of _ = 1

-- Every value is packed as an extension: its code, then its data.
abbrev pack_ext : ℤ × Bytes → Result Bytes
pack_ext (pos n, d) = ok (n ∷ d)
pack_ext (negsuc n, d) = raise value_error

abbrev unpack_ext : (ℤ → Bytes → Result ℕ) → Bytes → Result ℕ
unpack_ext hook [] = raise value_error
unpack_ext hook (n ∷ d) = hook (pos n) d

abbrev msgpack : Msgpack ℕ
msgpack = record {
  ext_type = λ i d. ok (i, d);
  packb = λ to_ext value. and_then (to_ext value) pack_ext;
  unpackb = unpack_ext;
  refusals = [];
}

msgpack-IsFaithful : IsFaithful ℕ_discrete type_of msgpack
msgpack-IsFaithful = λ i c data_ d e. ground (arith, e)

unpack-pack :
    (x : ℤ × Bytes) (hook : ℤ → Bytes → Result ℕ) (raw : Bytes)
    → pack_ext x ≡ ok raw
    → unpack_ext hook raw ≡ hook x.0 x.1
unpack-pack (pos n, d) hook raw e =
    let same : Path Bytes (n ∷ d) raw = ground (arith, e) in rw (← same) refl
unpack-pack (negsuc n, d) hook raw e = absurd (ground (arith, e))

msgpack-IsMsgpack : IsMsgpack ℕ_discrete type_of msgpack (λ _. Unit)
msgpack-IsMsgpack = λ to_ext hook value raw _ restores packed. elim (Result-cases (to_ext value)) [
  | inr (exc, raised) ↦ absurd (ground (arith, raised, packed))
  | inl (x, made) ↦ unpack-pack x hook raw (rw made at packed) ∙ restores value x.0 x.1 made
]

handlers_restore :
    (obj : ℕ) (data_ : Bytes) → handlers.pack obj ≡ ok data_ → handlers.unpack data_ ≡ ok obj
handlers_restore obj data_ e =
    let same : Path Bytes (obj ∷ []) data_ = ground (arith, e) in rw (← same) refl

one_type-Restores : (obj : ℕ) → Restores ℕ_discrete type_of msgpack one_type obj
unfolding program
one_type-Restores obj = λ i h data_ known packed.
    let same : handlers ≡ h = ground (arith, known) in
    subst (λ g. g.pack obj ≡ ok data_ → g.unpack data_ ≡ ok obj) same (handlers_restore obj data_)
      packed

five_packed : dumps ℕ_discrete type_of msgpack one_type 5 ≡ ok (64 ∷ 5 ∷ [])
unfolding program
five_packed = refl

msgpack-loads-dumps_example : RoundTrips (msgpack_serializer ℕ_discrete type_of msgpack one_type) 5
msgpack-loads-dumps_example =
    msgpack-loads-dumps ℕ_discrete type_of msgpack (λ _. Unit) one_type 5 (64 ∷ 5 ∷ [])
      msgpack-IsMsgpack msgpack-IsFaithful one_type-IsConsistent one_type-Restores tt five_packed

-- The number 0 stands for half past twelve.
abbrev iso_of : ℕ → Result String
iso_of zero = ok "12:30"
iso_of (suc n) = raise value_error

abbrev iso : IsoFormats ℕ
iso = record {
  isoformat = iso_of;
  fromisoformat = λ class_ text. if str_eq text "12:30" then ok 0 else raise value_error;
}

abbrev decode : Bytes → Result String
decode raw = if same_bytes raw (encode "12:30") then ok "12:30" else raise value_error

abbrev with_times : MsgpackSerializer ℕ ℕ
with_times = (register_type ℕ_discrete 1 (handlers_of iso decode time) (some (pos 66)) one_type).1

times_registered :
    register_type ℕ_discrete 1 (handlers_of iso decode time) (some (pos 66)) one_type
    ≡ (ok tt, with_times)
unfolding program
times_registered = refl

half_past_packed :
    default ℕ_discrete type_of msgpack with_times 0 ≡ ok (pos 66, 49 ∷ 50 ∷ 58 ∷ 51 ∷ 48 ∷ [])
unfolding program
half_past_packed = refl

half_past_restored :
    ext_hook ℕ_discrete type_of msgpack with_times (pos 66) (49 ∷ 50 ∷ 58 ∷ 51 ∷ 48 ∷ []) ≡ ok 0
unfolding program
half_past_restored = refl
