-- ===== src/Serializer/Msgpack.antt =====
-- src/pysilience/cache_serializer_msgpack.py: `MsgpackSerializer`. A type is a value of `T`, told apart
-- by `dec`, and `type_of` gives the type of an object. The package `msgpack` is a parameter.
pub mod Codec
pub mod Registry
pub mod Registering
pub mod Removal
pub mod History
pub mod Extensions
pub mod Builtins
use pysilience.Prelude.{
  ◌≡◌, String, Bool, true, false, not, ◌&&◌, ◌||◌, Option, none, some, List, [], ◌∷◌, if◌then◌else◌,
}
use mathlib.Core.Logic.{ite}
use text.Mathlib.Text.{◌==◌ as str_eq}
use pysilience.Python.{
  Exc, other, exception_class, base_exception_class, value_error_class, value_error, key_error,
  type_error, is_instance, Result, ok, raise, and_then, Bytes, ℤ, ℤ-discrete,
}
use pysilience.Python.Dict.{find, remove, assign}
use pysilience.Serializer.Protocol.{CacheSerializer}

-- `_PackFn` and `_UnpackFn`
pub record Handlers (V : Type 0) : Type 0 where
  pub pack : V → Result Bytes
  pub unpack : Bytes → Result V

-- The object: `_ext_by_type` and `_handlers_by_id`.
pub record MsgpackSerializer (T V : Type 0) : Type 0 where
  pub ext_by_type : List (T × ℤ)
  pub handlers_by_id : List (ℤ × Handlers V)

-- `__init__`
unfoldable pub init : {T V : Type 0} → MsgpackSerializer T V
init = record { ext_by_type = []; handlers_by_id = [] }

-- The exception of `next` for an iterator that is at its end.
abbrev pub stop_iteration : Exc
stop_iteration = other (exception_class ∷ base_exception_class ∷ []) 1

-- The descriptors that the dictionary of a class holds.
pub data DescriptorKind : Type 0 where
  plain class_method static_method : DescriptorKind

pub record Descriptor : Type 0 where
  pub kind : DescriptorKind
  pub is_callable : Bool

-- A class with the dictionaries of the classes in its method resolution order, and what its
-- attributes `__pack__` and `__unpack__` do.
pub record PyClass (T V : Type 0) : Type 0 where
  pub typ : T
  pub mro : List (List (String × Descriptor))
  pub handlers : Handlers V

-- `base.__dict__[name]`, if it is there.
abbrev pub attribute : String → List (String × Descriptor) → Option Descriptor
attribute name [] = none
attribute name ((n, d) ∷ rest) = if str_eq n name then some d else attribute name rest

abbrev is_plain : DescriptorKind → Bool
is_plain plain = true
is_plain _ = false

abbrev is_class_method : DescriptorKind → Bool
is_class_method class_method = true
is_class_method _ = false

-- `_is_instance_method`
unfoldable pub is_instance_method : List (List (String × Descriptor)) → String → Bool
is_instance_method [] name = false
is_instance_method (base ∷ bases) name = elim (attribute name base) [
  | some d ↦ d.is_callable && is_plain d.kind
  | none ↦ is_instance_method bases name
]

-- `_is_classmethod`
unfoldable pub is_classmethod : List (List (String × Descriptor)) → String → Bool
is_classmethod [] name = false
is_classmethod (base ∷ bases) name = elim (attribute name base) [
  | some d ↦ is_class_method d.kind
  | none ↦ is_classmethod bases name
]

-- `next(registered_typ for ... if registered_id == resolved_id)`
unfoldable pub owner_of : {T : Type 0} → ℤ → List (T × ℤ) → Result T
owner_of resolved_id [] = raise stop_iteration
owner_of resolved_id ((registered_typ, registered_id) ∷ rest) =
    ite (ℤ-discrete registered_id resolved_id) (ok registered_typ) (owner_of resolved_id rest)

-- `if old_id is not None and old_id != resolved_id: self._handlers_by_id.pop(old_id, None)`
unfoldable pub drop_old :
    {V : Type 0} → Option ℤ → ℤ → List (ℤ × Handlers V) → List (ℤ × Handlers V)
drop_old none resolved_id handlers = handlers
drop_old (some old_id) resolved_id handlers =
    ite (ℤ-discrete old_id resolved_id) handlers (remove ℤ-discrete old_id handlers)

module _ {T V : Type 0} (dec : Discrete T) where
  -- The end of `register_type`, from `old_id = ...` on.
  unfoldable pub install : T → Handlers V → ℤ → MsgpackSerializer T V → MsgpackSerializer T V
  install typ handlers resolved_id s = record {
    ext_by_type = assign dec typ resolved_id s.ext_by_type;
    handlers_by_id =
        assign ℤ-discrete resolved_id handlers
          (drop_old (find dec typ s.ext_by_type) resolved_id s.handlers_by_id);
  }

  -- `register_type` once the identifier is known.
  unfoldable pub register_at :
      T → Handlers V → ℤ → MsgpackSerializer T V → Result (Unit {0}) × MsgpackSerializer T V
  register_at typ handlers resolved_id s = elim (find ℤ-discrete resolved_id s.handlers_by_id) [
    | none ↦ (ok tt, install typ handlers resolved_id s)
    | some _ ↦ elim (owner_of resolved_id s.ext_by_type) [
      | raise exc ↦ (raise exc, s)
      | ok owner ↦
          ite (dec owner typ) (ok tt, install typ handlers resolved_id s) (raise value_error, s)
    ]
  ]

  -- `type_id if type_id is not None else self._ext_by_type.get(typ)`
  abbrev pub resolve : Option ℤ → T → MsgpackSerializer T V → Option ℤ
  resolve (some type_id) typ s = some type_id
  resolve none typ s = find dec typ s.ext_by_type

  -- `register_type`
  unfoldable pub register_type :
      T → Handlers V → Option ℤ → MsgpackSerializer T V → Result (Unit {0}) × MsgpackSerializer T V
  register_type typ handlers type_id s = elim (resolve type_id typ s) [
    | none ↦ (raise value_error, s)
    | some resolved_id ↦ register_at typ handlers resolved_id s
  ]

  -- `unregister_type`
  unfoldable pub unregister_type : T → MsgpackSerializer T V → MsgpackSerializer T V
  unregister_type typ s = elim (find dec typ s.ext_by_type) [
    | none ↦ s
    | some type_id ↦ record {
      ext_by_type = remove dec typ s.ext_by_type;
      handlers_by_id = remove ℤ-discrete type_id s.handlers_by_id;
    }
  ]

  -- `register`, applied to a class; the class itself is what the decorator returns.
  unfoldable pub register :
      ℤ → PyClass T V → MsgpackSerializer T V → Result (Unit {0}) × MsgpackSerializer T V
  register type_id cls s =
      if not (is_instance_method cls.mro "__pack__")
      then (raise type_error, s)
      else if not (is_classmethod cls.mro "__unpack__")
      then (raise type_error, s)
      else register_type cls.typ cls.handlers (some type_id) s
