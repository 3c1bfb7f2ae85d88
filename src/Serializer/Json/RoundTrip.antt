-- ===== src/Serializer/Json/RoundTrip.antt =====
-- src/pysilience/cache_serializer_json.py: which values come back from the cache as they were.
use pysilience.Prelude.{ℕ, ◌≡◌, refl, ◌∙◌, none, some, false, ◌⊎◌, inl, inr, arith}
use pysilience.Python.{Exc, Result-cases, ok, raise, Bytes, String-discrete}
use pysilience.Python.Dict.{find}
use pysilience.Serializer.Protocol.{RoundTrips}
use pysilience.Serializer.Json.Values.{
  PyType, type_key, Value, Items, Fields, dict, object, end, field, dict_of, Tree, Trees, Members,
  null_tree, boolean_tree, number_tree, text_tree, array_tree, object_tree, no_trees, tree,
  no_members, member,
}
use pysilience.Serializer.Json.Envelope.{
  TypeHandler, Registry, envelope_type, envelope_data, envelope, envelope_encode, is_envelope,
  decode_as, envelope_decode,
}
use pysilience.Serializer.Json.Storable.{
  Storable, StorableItems, StorableFields, null_storable, boolean_storable, number_storable,
  string_storable, array_storable, dict_storable, object_storable, nil_storable, cons_storable,
  end_storable, field_storable,
}
use pysilience.Serializer.Json.Codec.{
  JsonText, trees_of, members_of, to_tree, from_tree, from_trees, from_members, decoded, dumps,
  loads, json_serializer,
}

module _ {N O : Type 0} (registry : Registry N O) where
  dict_of-StorableFields :
      {limit : ℕ} (fs : Fields N O) → StorableFields registry limit fs → dict_of fs ≡ fs
  unfolding dict_of
  dict_of-StorableFields end end_storable = refl
  dict_of-StorableFields (field k v fs) (field_storable first fresh others) =
      rw (dict_of-StorableFields fs others) (rw fresh refl)

  -- Without the handler of its type, a dictionary that is no envelope stays as it is.
  envelope_decode_plain :
      (fs : Fields N O) → is_envelope fs ≡ false → envelope_decode registry fs ≡ ok (dict fs)
  unfolding envelope_decode
  envelope_decode_plain fs h = rw h refl

  -- The handler of a type decodes the envelopes of that type.
  envelope_decode-envelope :
      (cls : PyType) (h : TypeHandler N O) (data_ : Value N O)
      → find String-discrete (type_key cls) registry ≡ some h
      → envelope_decode registry (dict_of (envelope (type_key cls) data_)) ≡ h.decode data_
  unfolding envelope_decode dict_of is_envelope decode_as
  envelope_decode-envelope cls h data_ known = ground (arith, known)

  envelope_encode_known :
      (cls : PyType) (contents : O) (h : TypeHandler N O) (data_ : Value N O)
      → find String-discrete (type_key cls) registry ≡ some h
      → h.encode (object cls contents) ≡ ok data_
      → envelope_encode registry cls contents ≡ ok (dict (envelope (type_key cls) data_))
  unfolding envelope_encode
  envelope_encode_known cls contents h data_ known encodes = ground (arith, known, encodes)

-- The walk down succeeds, and the walk up over its tree gives the value back.
abbrev Stored : {N O : Type 0} → Registry N O → ℕ → Value N O → Type 0
Stored registry limit v =
    (t : Tree _) × ((to_tree registry limit v ≡ ok t) × (from_tree registry t ≡ ok v))

abbrev StoredItems : {N O : Type 0} → Registry N O → ℕ → Items N O → Type 0
StoredItems registry limit vs =
    (ts : Trees _) × ((trees_of (to_tree registry limit) vs ≡ ok ts)
      × (from_trees registry ts ≡ ok vs))

abbrev StoredFields : {N O : Type 0} → Registry N O → ℕ → Fields N O → Type 0
StoredFields registry limit fs =
    (ms : Members _) × ((members_of (to_tree registry limit) fs ≡ ok ms)
      × (from_members registry ms ≡ ok fs))

mutual
  unfolding to_tree from_tree

  Storable-Stored :
      {N O : Type 0} (registry : Registry N O) {limit : ℕ} {v : Value N O}
      → Storable registry limit v
      → Stored registry limit v
  Storable-Stored registry null_storable = (null_tree, (refl, refl))
  Storable-Stored registry (boolean_storable b) = (boolean_tree b, (refl, refl))
  Storable-Stored registry (number_storable n) = (number_tree n, (refl, refl))
  Storable-Stored registry (string_storable s) = (text_tree s, (refl, refl))
  Storable-Stored registry (array_storable items) =
      let (ts, (down, up)) = StorableItems-Stored registry items in
      (array_tree ts, (rw down refl, rw up refl))
  Storable-Stored registry (dict_storable {fs = fs} fields plain) =
      let (ms, (down, up)) = StorableFields-Stored registry fields in
      (
        object_tree ms,
        (
          rw down refl,
          rw up (
              rw (dict_of-StorableFields registry fs fields)
                (envelope_decode_plain registry fs plain)),
        ),
      )
  Storable-Stored registry
        (object_storable {cls = cls} {contents = contents} {h = h} known encodes decodes storable) =
      let (t, (down, up)) = Storable-Stored registry storable in
      (
        object_tree
            (member envelope_type (text_tree (type_key cls)) (member envelope_data t no_members)),
        (
          rw (envelope_encode_known registry cls contents h _ known encodes) (rw down refl),
          rw up (envelope_decode-envelope registry cls h _ known ∙ decodes),
        ),
      )

  StorableItems-Stored :
      {N O : Type 0} (registry : Registry N O) {limit : ℕ} {vs : Items N O}
      → StorableItems registry limit vs
      → StoredItems registry limit vs
  StorableItems-Stored registry nil_storable = (no_trees, (refl, refl))
  StorableItems-Stored registry (cons_storable first others) =
      let (t, (down, up)) = Storable-Stored registry first in
      let (ts, (downs, ups)) = StorableItems-Stored registry others in
      (tree t ts, (rw down (rw downs refl), rw up (rw ups refl)))

  StorableFields-Stored :
      {N O : Type 0} (registry : Registry N O) {limit : ℕ} {fs : Fields N O}
      → StorableFields registry limit fs
      → StoredFields registry limit fs
  StorableFields-Stored registry end_storable = (no_members, (refl, refl))
  StorableFields-Stored registry (field_storable {k = k} first fresh others) =
      let (t, (down, up)) = Storable-Stored registry first in
      let (ms, (downs, ups)) = StorableFields-Stored registry others in
      (member k t ms, (rw down (rw downs refl), rw up (rw ups refl)))

-- What is relied on of the texts: what is written is read as the same tree, with nothing after it.
abbrev pub IsJsonText : {N : Type 0} → JsonText N → Type 0
IsJsonText text_of =
    (t : Tree _) (raw : Bytes)
    → text_of.write t ≡ ok raw
    → text_of.read raw ≡ ok (record { tree = t; extra = none })

-- `loads` gives every storable value back as `dumps` took it, unless the tree of the value cannot be
-- written, and then `dumps` raises what the writer raises.
pub json-loads-dumps :
    {N O : Type 0} (text_of : JsonText N) (registry : Registry N O) (limit : ℕ) (v : Value N O)
    → IsJsonText text_of
    → Storable registry limit v
    → RoundTrips (json_serializer text_of registry limit) v
      ⊎ ((t : Tree N) × ((exc : Exc) × ((text_of.write t ≡ raise exc)
              × (dumps text_of registry limit v ≡ raise exc))))
unfolding dumps loads decoded
json-loads-dumps text_of registry limit v law storable =
    let (t, (down, up)) = Storable-Stored registry storable in
    elim (Result-cases (text_of.write t)) [
      | inl (raw, written) ↦ inl (raw, (rw down written, rw (law t raw written) (rw up refl)))
      | inr (exc, refused) ↦ inr (t, (exc, (refused, rw down refused)))
    ]
