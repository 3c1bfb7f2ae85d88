-- ===== src/Serializer/Json/Storable.antt =====
-- src/pysilience/cache_serializer_json.py: the values that it can store.
use pysilience.Prelude.{ℕ, suc, ◌≡◌, String, Bool, false, none, some}
use pysilience.Python.{ok, String-discrete}
use pysilience.Python.Dict.{find}
use pysilience.Serializer.Json.Values.{
  PyType, type_key, Value, Items, Fields, null, boolean, number, string, array, dict, object, nil,
  cons, end, field, get_field,
}
use pysilience.Serializer.Json.Envelope.{TypeHandler, Registry, is_envelope}

-- The values that can be stored when the walk may go `limit` levels deep: no tuples, no dictionary
-- that looks like an envelope, and only objects of registered types whose handlers restore them from
-- data that can be stored.
mutual
  pub data Storable {N O : Type 0} (registry : Registry N O) : ℕ → Value N O → Type 0 where
    null_storable : {limit : ℕ} → Storable registry (suc limit) null
    boolean_storable : {limit : ℕ} (b : Bool) → Storable registry (suc limit) (boolean b)
    number_storable : {limit : ℕ} (n : N) → Storable registry (suc limit) (number n)
    string_storable : {limit : ℕ} (s : String) → Storable registry (suc limit) (string s)
    array_storable :
        {limit : ℕ} {vs : Items N O}
        → StorableItems registry limit vs
        → Storable registry (suc limit) (array vs)
    dict_storable :
        {limit : ℕ} {fs : Fields N O}
        → StorableFields registry limit fs
        → is_envelope fs ≡ false
        → Storable registry (suc limit) (dict fs)
    object_storable :
        {limit : ℕ} {cls : PyType} {contents : O} {h : TypeHandler N O} {data_ : Value N O}
        → find String-discrete (type_key cls) registry ≡ some h
        → h.encode (object cls contents) ≡ ok data_
        → h.decode data_ ≡ ok (object cls contents)
        → Storable registry (suc limit) data_
        → Storable registry (suc (suc (suc limit))) (object cls contents)

  pub data StorableItems {N O : Type 0} (registry : Registry N O) : ℕ → Items N O → Type 0 where
    nil_storable : {limit : ℕ} → StorableItems registry limit nil
    cons_storable :
        {limit : ℕ} {v : Value N O} {vs : Items N O}
        → Storable registry limit v
        → StorableItems registry limit vs
        → StorableItems registry limit (cons v vs)

  pub data StorableFields {N O : Type 0} (registry : Registry N O) : ℕ → Fields N O → Type 0 where
    end_storable : {limit : ℕ} → StorableFields registry limit end
    field_storable :
        {limit : ℕ} {k : String} {v : Value N O} {fs : Fields N O}
        → Storable registry limit v
        → get_field k fs ≡ none
        → StorableFields registry limit fs
        → StorableFields registry limit (field k v fs)
