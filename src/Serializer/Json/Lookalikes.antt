-- ===== src/Serializer/Json/Lookalikes.antt =====
-- src/pysilience/cache_serializer_json.py: dictionaries of the caller that look like an envelope, and
-- what reading an envelope may raise.
use pysilience.Prelude.{
  ℕ, suc, ◌≡◌, refl, ap, String, none, some, ◌⊎◌, inl, inr, arith, Option-cases,
}
use pysilience.Python.{
  is_instance, value_error, Result, ok, raise, Bytes, String-discrete, and_then,
}
use pysilience.Python.Dict.{find}
use pysilience.Serializer.Json.Values.{
  Value, string, dict, dict_of, Tree, text_tree, object_tree, no_members, member,
}
use pysilience.Serializer.Json.Envelope.{
  TypeHandler, Registry, envelope_type, envelope_data, envelope, is_envelope, decode_as,
  envelope_decode,
}
use pysilience.Serializer.Json.Codec.{JsonText, to_tree, from_tree, decoded, dumps, loads}
use pysilience.Serializer.Json.RoundTrip.{IsJsonText}

and_then-ok {ℓ} : {A : Type ℓ} (r : Result A) → and_then r (λ a. ok a) ≡ r
and_then-ok (ok a) = refl
and_then-ok (raise exc) = refl

-- The tree of an envelope.
abbrev pub envelope_tree : {N : Type 0} → String → Tree N → Tree N
envelope_tree key t =
    object_tree (member envelope_type (text_tree key) (member envelope_data t no_members))

module _ {N O : Type 0} (registry : Registry N O) where
  -- An envelope is read by the handler of its type, or refused if there is none.
  envelope_decode-cases :
      (key : String) (data_ : Value N O)
      → ((find String-discrete key registry ≡ none)
          × (envelope_decode registry (dict_of (envelope key data_)) ≡ raise value_error))
        ⊎ ((h : TypeHandler N O) × ((find String-discrete key registry ≡ some h)
              × (envelope_decode registry (dict_of (envelope key data_)) ≡ h.decode data_)))
  unfolding envelope_decode dict_of is_envelope decode_as
  envelope_decode-cases key data_ = elim (Option-cases (find String-discrete key registry)) [
    | inl unknown ↦ inl (unknown, ground (arith, unknown))
    | inr (h, known) ↦ inr (h, (known, ground (arith, known)))
  ]

  -- What reading an envelope comes to.
  abbrev pub IsReadAs : String → Value N O → Result (Value N O) → Type 0
  IsReadAs key data_ r =
      ((find String-discrete key registry ≡ none) × (r ≡ raise value_error))
      ⊎ ((h : TypeHandler N O) × ((find String-discrete key registry ≡ some h)
            × (r ≡ decoded (h.decode data_))))

  from_tree-envelope :
      (key : String) (t : Tree N) (data_ : Value N O)
      → from_tree registry t ≡ ok data_
      → from_tree registry (envelope_tree key t)
        ≡ envelope_decode registry (dict_of (envelope key data_))
  unfolding from_tree
  from_tree-envelope key t data_ up = rw up refl

  -- Reading bytes that hold an envelope raises `ValueError` if its type is not registered; else it
  -- gives what the handler of the type gives, and raises what the handler raises, if that is no
  -- error of decoding a text.
  pub loads-envelope :
      (text_of : JsonText N) (raw : Bytes) (key : String) (t : Tree N) (data_ : Value N O)
      → text_of.read raw ≡ ok (record { tree = envelope_tree key t; extra = none })
      → from_tree registry t ≡ ok data_
      → IsReadAs key data_ (loads text_of registry raw)
  unfolding loads decoded is_instance
  loads-envelope text_of raw key t data_ read up = rw read (
      rw (from_tree-envelope key t data_ up) (elim (envelope_decode-cases key data_) [
        | inl (unknown, refused) ↦ inl (unknown, rw refused refl)
        | inr (h, (known, same)) ↦
            inr (h, (known, rw same (ap decoded (and_then-ok (h.decode data_)))))
      ]))

  -- A dictionary of the caller with the two keys of an envelope and texts as values is stored, but
  -- does not come back: it is read as an envelope, which is refused if its type is not registered.
  pub lookalike-IsReadAs :
      (text_of : JsonText N) (key data_ : String) (limit : ℕ) (raw : Bytes)
      → IsJsonText text_of
      → dumps text_of registry (suc (suc limit)) (dict (envelope key (string data_))) ≡ ok raw
      → IsReadAs key (string data_) (loads text_of registry raw)
  unfolding dumps to_tree from_tree
  lookalike-IsReadAs text_of key data_ limit raw law dumped =
      loads-envelope text_of raw key (text_tree data_) (string data_)
        (law (envelope_tree key (text_tree data_)) raw dumped) refl
