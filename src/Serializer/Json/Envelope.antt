-- ===== src/Serializer/Json/Envelope.antt =====
-- src/pysilience/cache_serializer_json.py: the registry of types, and the type envelopes.
use pysilience.Prelude.{
  String, Bool, true, false, ◌&&◌, ◌||◌, Option, none, some, List, if◌then◌else◌,
}
use text.Mathlib.Text.{◌==◌ as str_eq}
use pysilience.Python.Dict.{find, assign, remove}
use pysilience.Python.{
  String-discrete, type_error, value_error, key_error, Result, ok, raise, and_then,
}
use pysilience.Serializer.Json.Values.{
  PyType, type_key, Value, Fields, string, dict, object, end, field, get_field,
}

-- `_TYPE_KEY` and `_DATA_KEY`
abbrev pub envelope_type : String
envelope_type = "__pysilience_type__"

abbrev pub envelope_data : String
envelope_data = "data"

-- `_TypeHandler`
pub record TypeHandler (N O : Type 0) : Type 0 where
  pub encode : Value N O → Result (Value N O)
  pub decode : Value N O → Result (Value N O)

-- `_type_registry`
abbrev pub Registry : Type 0 → Type 0 → Type 0
Registry N O = List (String × TypeHandler N O)

abbrev is_key : String → Bool
is_key k = str_eq k envelope_type || str_eq k envelope_data

module _ {N O : Type 0} where
  -- `_register_type`
  unfoldable pub register_type : PyType → TypeHandler N O → Registry N O → Registry N O
  register_type cls h registry = assign String-discrete (type_key cls) h registry

  -- `JsonSerializer.register`
  unfoldable pub register : PyType → TypeHandler N O → Registry N O → Registry N O
  register typ h registry = register_type typ h registry

  -- `JsonSerializer.unregister`
  unfoldable pub unregister : PyType → Registry N O → Registry N O
  unregister typ registry = remove String-discrete (type_key typ) registry

  abbrev pub envelope : String → Value N O → Fields N O
  envelope key data_ = field envelope_type (string key) (field envelope_data data_ end)

  -- `_envelope_encode`, for an object of the class `cls`.
  unfoldable pub envelope_encode : Registry N O → PyType → O → Result (Value N O)
  envelope_encode registry cls contents = elim (find String-discrete (type_key cls) registry) [
    | none ↦ raise type_error
    | some h ↦
        and_then (h.encode (object cls contents))
          (λ data_. ok (dict (envelope (type_key cls) data_)))
  ]

  abbrev all_are_keys : Fields N O → Bool
  all_are_keys end = true
  all_are_keys (field k v fs) = is_key k && all_are_keys fs

  abbrev has_field : String → Fields N O → Bool
  has_field key fs = elim (get_field key fs) [ none ↦ false | some _ ↦ true ]

  -- `set(obj) == {_TYPE_KEY, _DATA_KEY}`
  unfoldable pub is_envelope : Fields N O → Bool
  is_envelope fs = all_are_keys fs && has_field envelope_type fs && has_field envelope_data fs

  -- `decode_fn(obj[_DATA_KEY])`
  abbrev pub decode_by : TypeHandler N O → Option (Value N O) → Result (Value N O)
  decode_by h none = raise key_error
  decode_by h (some data_) = h.decode data_

  -- `_envelope_decode` once the key of the type is known.
  unfoldable pub decode_as : Registry N O → String → Fields N O → Result (Value N O)
  decode_as registry key obj = elim (find String-discrete key registry) [
    | none ↦ raise value_error
    | some h ↦ decode_by h (get_field envelope_data obj)
  ]

  -- `_envelope_decode`
  unfoldable pub envelope_decode : Registry N O → Fields N O → Result (Value N O)
  envelope_decode registry obj =
      if is_envelope obj
      then elim (get_field envelope_type obj) [
        | some (string key) ↦ decode_as registry key obj
        | _ ↦ ok (dict obj)
      ]
      else ok (dict obj)
