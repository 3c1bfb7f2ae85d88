-- ===== src/Serializer/Msgpack/Codec.antt =====
-- src/pysilience/cache_serializer_msgpack.py: `_default`, `_ext_hook`, `dumps` and `loads`.
use pysilience.Prelude.{none, some, List, ◌∷◌, if◌then◌else◌}
use pysilience.Python.{
  Class, value_error_class, value_error, key_error, type_error, is_instance, Result, ok, raise,
  and_then, Bytes, ℤ, ℤ-discrete,
}
use pysilience.Python.Dict.{find}
use pysilience.Serializer.Protocol.{CacheSerializer}
use pysilience.Serializer.Msgpack.{MsgpackSerializer}

-- The package `msgpack`, a parameter: `ext_type` makes an `ExtType`, `packb` calls its `default` for
-- each object that it does not know, and `unpackb` its `ext_hook` for each extension; `refusals` are
-- `UnpackException` and `FormatError`.
pub record Msgpack (V : Type 0) : Type 0 where
  pub ext_type : ℤ → Bytes → Result (ℤ × Bytes)
  pub packb : (V → Result (ℤ × Bytes)) → V → Result Bytes
  pub unpackb : (ℤ → Bytes → Result V) → Bytes → Result V
  pub refusals : List Class

module _ {T V : Type 0} (dec : Discrete T) (type_of : V → T) (msgpack : Msgpack V) where
  -- `pack, _ = self._handlers_by_id[type_id]` and what follows in `_default`.
  unfoldable pub pack_as : ℤ → V → MsgpackSerializer T V → Result (ℤ × Bytes)
  pack_as type_id obj s = elim (find ℤ-discrete type_id s.handlers_by_id) [
    | none ↦ raise key_error
    | some handlers ↦ and_then (handlers.pack obj) (λ data_. msgpack.ext_type type_id data_)
  ]

  -- `_default`
  unfoldable pub default : MsgpackSerializer T V → V → Result (ℤ × Bytes)
  default s obj = elim (find dec (type_of obj) s.ext_by_type) [
    | none ↦ raise type_error
    | some type_id ↦ pack_as type_id obj s
  ]

  -- `_ext_hook`
  unfoldable pub ext_hook : MsgpackSerializer T V → ℤ → Bytes → Result V
  ext_hook s code data_ = elim (find ℤ-discrete code s.handlers_by_id) [
    | none ↦ raise value_error
    | some handlers ↦ handlers.unpack data_
  ]

  -- `except (msgpack.UnpackException, msgpack.FormatError, ValueError)`
  unfoldable pub unpacked : Result V → Result V
  unpacked (ok v) = ok v
  unpacked (raise exc) =
      if is_instance exc (value_error_class ∷ msgpack.refusals)
      then raise value_error
      else raise exc

  -- `dumps`
  unfoldable pub dumps : MsgpackSerializer T V → V → Result Bytes
  dumps s value = msgpack.packb (default s) value

  -- `loads`
  unfoldable pub loads : MsgpackSerializer T V → Bytes → Result V
  loads s raw = unpacked (msgpack.unpackb (ext_hook s) raw)

  abbrev pub msgpack_serializer : MsgpackSerializer T V → CacheSerializer V
  msgpack_serializer s = record { dumps = dumps s; loads = loads s }
