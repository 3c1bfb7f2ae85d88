-- ===== src/Serializer/Msgpack/Builtins.antt =====
-- src/pysilience/cache_serializer_msgpack_builtins.py: the handlers for dates and times. The methods
-- `isoformat` and `fromisoformat` of `datetime`, and `bytes.decode`, are parameters.
use pysilience.Prelude.{◌≡◌, ap, String, Option, some, inl, inr, arith}
use mathlib.Core.Path.{subst}
use pysilience.Python.{Result, ok, and_then, Bytes, encode, ℤ, Result-cases}
use pysilience.Serializer.Msgpack.{Handlers, MsgpackSerializer, register_type}
use pysilience.Serializer.Msgpack.Codec.{Msgpack, default, ext_hook}
use pysilience.Serializer.Msgpack.Registry.{IsConsistent}
use pysilience.Serializer.Msgpack.Registering.{Updates, register_type-outcome}
use pysilience.Serializer.Msgpack.Extensions.{IsFaithful, ext_hook-default}

-- The classes of the module `datetime`.
pub data TimeClass : Type 0 where
  datetime date time : TimeClass

-- What they do: `isoformat` of an object, and `fromisoformat` of a class.
pub record IsoFormats (V : Type 0) : Type 0 where
  pub isoformat : V → Result String
  pub fromisoformat : TimeClass → String → Result V

module _ {V : Type 0} (iso : IsoFormats V) (decode : Bytes → Result String) where
  unfoldable pub pack_datetime : V → Result Bytes
  pack_datetime value = and_then (iso.isoformat value) (λ text. ok (encode text))

  unfoldable pub unpack_datetime : Bytes → Result V
  unpack_datetime data_ = and_then (decode data_) (λ text. iso.fromisoformat datetime text)

  unfoldable pub pack_date : V → Result Bytes
  pack_date value = and_then (iso.isoformat value) (λ text. ok (encode text))

  unfoldable pub unpack_date : Bytes → Result V
  unpack_date data_ = and_then (decode data_) (λ text. iso.fromisoformat date text)

  unfoldable pub pack_time : V → Result Bytes
  pack_time value = and_then (iso.isoformat value) (λ text. ok (encode text))

  unfoldable pub unpack_time : Bytes → Result V
  unpack_time data_ = and_then (decode data_) (λ text. iso.fromisoformat time text)

  -- The handlers as the documentation of the module registers them.
  abbrev pub handlers_of : TimeClass → Handlers V
  handlers_of datetime = record { pack = pack_datetime; unpack = unpack_datetime }
  handlers_of date = record { pack = pack_date; unpack = unpack_date }
  handlers_of time = record { pack = pack_time; unpack = unpack_time }

  -- Documented: `fromisoformat` of its class restores an object from its `isoformat`, and `decode` a
  -- text from its `encode`, here for the text of an object.
  abbrev pub IsIso : TimeClass → V → Type 0
  IsIso class_ value =
      (text : String) → iso.isoformat value ≡ ok text → iso.fromisoformat class_ text ≡ ok value

  abbrev pub Decodes : V → Type 0
  Decodes value = (text : String) → iso.isoformat value ≡ ok text → decode (encode text) ≡ ok text

  -- The two bodies one after the other.
  restored :
      (class_ : TimeClass) (value : V) (data_ : Bytes)
      → Decodes value
      → IsIso class_ value
      → and_then (iso.isoformat value) (λ text. ok (encode text)) ≡ ok data_
      → and_then (decode data_) (λ text. iso.fromisoformat class_ text) ≡ ok value
  restored class_ value data_ decodes restores e = elim (Result-cases (iso.isoformat value)) [
    | inl (text, formatted) ↦
        let same : encode text ≡ data_ = ground (arith, rw formatted at e) in
        rw (← same, decodes text formatted) (restores text formatted)
    | inr (exc, raised) ↦ absurd (ground (arith, rw raised at e))
  ]

  unpack-pack :
      (class_ : TimeClass) (value : V) (data_ : Bytes)
      → Decodes value
      → IsIso class_ value
      → (handlers_of class_).pack value ≡ ok data_
      → (handlers_of class_).unpack data_ ≡ ok value
  unfolding pack_datetime unpack_datetime pack_date unpack_date pack_time unpack_time
  unpack-pack datetime value data_ decodes restores e =
      restored datetime value data_ decodes restores e
  unpack-pack date value data_ decodes restores e = restored date value data_ decodes restores e
  unpack-pack time value data_ decodes restores e = restored time value data_ decodes restores e

  -- Once the handlers of a class are registered for a type in a consistent serializer, `_ext_hook`
  -- restores each object of the type from what `_default` makes of it, if `fromisoformat` of the
  -- class restores the object from its `isoformat`, and `decode` that text from its `encode`.
  pub ext_hook-builtins :
      {T : Type 0} (dec : Discrete T) (type_of : V → T) (msgpack : Msgpack V) (class_ : TimeClass)
      (obj : V) (type_id : Option ℤ) (s s' : MsgpackSerializer T V) (code : ℤ) (data_ : Bytes)
      → Decodes obj
      → IsIso class_ obj
      → IsFaithful dec type_of msgpack
      → IsConsistent dec s
      → register_type dec (type_of obj) (handlers_of class_) type_id s ≡ (ok tt, s')
      → default dec type_of msgpack s' obj ≡ ok (code, data_)
      → ext_hook dec type_of msgpack s' code data_ ≡ ok obj
  ext_hook-builtins dec type_of msgpack class_ obj type_id s s' code data_ decodes iso_law faithful
        p done made =
      elim (register_type-outcome dec (type_of obj) (handlers_of class_) type_id s p) [
        | inl (refused, _) ↦ absurd (ground (arith, done, refused))
        | inr (i, (known, (_, new))) ↦
            let updates : Updates dec (type_of obj) (some (i, handlers_of class_)) s s' =
              subst (λ x. Updates dec (type_of obj) (some (i, handlers_of class_)) s x)
                (ap (λ r. r.1) done) new in
            ext_hook-default dec type_of msgpack s' obj code data_ updates.consistent faithful
              (λ j h d there packed.
                let same : handlers_of class_ ≡ h = ground (arith, there, updates.updated) in
                subst (λ g. g.pack obj ≡ ok d → g.unpack d ≡ ok obj) same
                  (unpack-pack class_ obj d decodes iso_law) packed)
              made
      ]
