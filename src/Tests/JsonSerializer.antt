-- ===== src/Tests/JsonSerializer.antt =====
-- src/pysilience/cache_serializer_json.py at concrete inputs: a registry with one class, and texts for
-- one envelope.
use text.Mathlib.Text.{◌==◌ as str_eq}
use text.Mathlib.TextEquality.{eq_iff}
use pysilience.Prelude.{
  ℕ, ◌≡◌, refl, sym, ap, String, Bool, true, false, ◌&&◌, none, [], ◌∷◌, ◌⊎◌, inl, inr,
  if◌then◌else◌, arith, Bool-cases,
}
use pysilience.Python.{
  Exc, is_instance, value_error, type_error, Result, ok, raise, String-discrete,
}
use pysilience.Python.Dict.{find, remove, assign}
use pysilience.Serializer.Protocol.{RoundTrips}
use pysilience.Serializer.Json.Values.{
  PyType, Value, string, dict, object, dict_of, Tree, text_tree, object_tree, no_members, member,
}
use pysilience.Serializer.Json.Envelope.{
  TypeHandler, Registry, envelope_type, envelope_data, envelope, envelope_encode, register_type,
  register, unregister, is_envelope, decode_as, envelope_decode,
}
use pysilience.Serializer.Json.Codec.{
  JsonText, to_tree, from_tree, decoded, dumps, loads, json_serializer,
}
use pysilience.Serializer.Json.Storable.{Storable, string_storable, object_storable}
use pysilience.Serializer.Json.RoundTrip.{IsJsonText, json-loads-dumps}
use pysilience.Serializer.Json.Lookalikes.{IsReadAs, envelope_tree, loads-envelope}

program : Unit {0}
unfolding is_instance find remove assign dict_of envelope_encode register_type register unregister
    is_envelope decode_as envelope_decode to_tree from_tree decoded dumps loads String-discrete
program = tt

abbrev Val : Type 0
Val = Value ℕ String

abbrev point : PyType
point = record { module_name = "geo"; qualname = "Point" }

-- A point is stored as the text of its contents.
abbrev encode_point : Val → Result Val
encode_point (object cls contents) = ok (string contents)
encode_point _ = raise type_error

abbrev decode_point : Val → Result Val
decode_point (string s) = ok (object point s)
decode_point _ = raise type_error

abbrev point_handler : TypeHandler ℕ String
point_handler = record { encode = encode_point; decode = decode_point }

abbrev registry : Registry ℕ String
registry = register point point_handler []

-- Texts for one tree only: bytes 1 stand for the envelope of `key` with the text `data_`.
abbrev is_text : String → Tree ℕ → Bool
is_text s (text_tree t) = str_eq t s
is_text s _ = false

abbrev is_sample : String → String → Tree ℕ → Bool
is_sample key data_ (object_tree (member k t (member l u no_members))) =
    (str_eq k envelope_type && is_text key t) && (str_eq l envelope_data && is_text data_ u)
is_sample key data_ _ = false

abbrev texts : String → String → JsonText ℕ
texts key data_ = record {
  write = λ t. if is_sample key data_ t then ok (1 ∷ []) else raise value_error;
  read = λ raw. ok (record { tree = envelope_tree key (text_tree data_); extra = none });
}

is_text-eq : (s : String) (t : Tree ℕ) → is_text s t ≡ true → t ≡ text_tree s
is_text-eq s (text_tree t) h = ap text_tree ((eq_iff t s).0 h)
is_text-eq s _ h = absurd (ground arith)

is_sample-eq :
    (key data_ : String) (t : Tree ℕ)
    → is_sample key data_ t ≡ true
    → t ≡ envelope_tree key (text_tree data_)
is_sample-eq key data_ (object_tree (member k t (member l u no_members))) h =
    let keys : (str_eq k envelope_type ≡ true) × (str_eq l envelope_data ≡ true) =
      (ground (arith, h), ground (arith, h)) in
    let first : t ≡ text_tree key = is_text-eq key t (ground (arith, h)) in
    let second : u ≡ text_tree data_ = is_text-eq data_ u (ground (arith, h)) in
    cc (first, second, (eq_iff k envelope_type).0 keys.0, (eq_iff l envelope_data).0 keys.1)
is_sample-eq key data_ _ h = absurd (ground arith)

texts-IsJsonText : (key data_ : String) → IsJsonText (texts key data_)
texts-IsJsonText key data_ t raw h = elim (Bool-cases (is_sample key data_ t)) [
  | inl same ↦
      ap (λ u. ok (record { tree = u; extra = none })) (sym (is_sample-eq key data_ t same))
  | inr other ↦ absurd (ground (arith, h, other))
]

comes_back : loads (texts "geo.Point" "1,2") registry (1 ∷ []) ≡ ok (object point "1,2")
unfolding program
comes_back = refl

point-Storable : Storable registry 5 (object point "1,2")
unfolding program
point-Storable =
    object_storable {h = point_handler} {data_ = string "1,2"} refl refl refl
      (string_storable "1,2")

json-loads-dumps_example :
    RoundTrips (json_serializer (texts "geo.Point" "1,2") registry 5) (object point "1,2")
    ⊎ ((t : Tree ℕ) × ((exc : Exc) × (((texts "geo.Point" "1,2").write t ≡ raise exc)
            × (dumps (texts "geo.Point" "1,2") registry 5 (object point "1,2") ≡ raise exc))))
json-loads-dumps_example =
    json-loads-dumps (texts "geo.Point" "1,2") registry 5 (object point "1,2")
      (texts-IsJsonText "geo.Point" "1,2") point-Storable

-- The caller's own dictionary.
lookalike_dumped :
    dumps (texts "geo.Line" "x") registry 5 (dict (envelope "geo.Line" (string "x"))) ≡ ok (1 ∷ [])
unfolding program
lookalike_dumped = refl

loads-envelope_example :
    IsReadAs registry "geo.Point" (string "1,2") (loads (texts "geo.Point" "1,2") registry (9 ∷ []))
unfolding program
loads-envelope_example =
    loads-envelope registry (texts "geo.Point" "1,2") (9 ∷ []) "geo.Point" (text_tree "1,2")
      (string "1,2") refl refl
