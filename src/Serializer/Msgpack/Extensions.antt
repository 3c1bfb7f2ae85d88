-- ===== src/Serializer/Msgpack/Extensions.antt =====
-- src/pysilience/cache_serializer_msgpack.py: what `_default` packs, `_ext_hook` unpacks.
use pysilience.Prelude.{◌≡◌, sym, ap, ◌∙◌, none, some, ◌⊎◌, inl, inr, arith, Option-cases}
use pysilience.Python.{type_error, Result, ok, raise, and_then, Bytes, ℤ, ℤ-discrete}
use pysilience.Python.Dict.{find}
use pysilience.Serializer.Protocol.{RoundTrips}
use pysilience.Serializer.Msgpack.{Handlers, MsgpackSerializer}
use pysilience.Serializer.Msgpack.Codec.{
  Msgpack, pack_as, default, ext_hook, unpacked, dumps, loads, msgpack_serializer,
}
use pysilience.Serializer.Msgpack.Registry.{IsConsistent}
use pysilience.Serializer.Msgpack.Registering.{entry}

module _ {T V : Type 0} (dec : Discrete T) (type_of : V → T) (msgpack : Msgpack V) where
  -- In a consistent serializer `_default` raises `TypeError` for an object of a type that is not
  -- registered, and else makes the extension from the handlers and the identifier of the type; it
  -- never raises `KeyError` of its own.
  pub default-outcome :
      (s : MsgpackSerializer T V) (obj : V)
      → IsConsistent dec s
      → ((entry dec (type_of obj) s ≡ none)
          × (default dec type_of msgpack s obj ≡ raise type_error))
        ⊎ ((i : ℤ) × ((h : Handlers V) × ((entry dec (type_of obj) s ≡ some (i, h))
                × ((find ℤ-discrete i s.handlers_by_id ≡ some h)
                    × (default dec type_of msgpack s obj
                        ≡ and_then (h.pack obj) (λ data_. msgpack.ext_type i data_))))))
  unfolding default pack_as
  default-outcome s obj p = elim (Option-cases (find dec (type_of obj) s.ext_by_type)) [
    | inl missing ↦ inl (ground (arith, missing), ground (arith, missing))
    | inr (i, known) ↦
        let (h, there) = p.handled (type_of obj) i known in
        inr (i, (h, (ground (arith, known, there), (there, ground (arith, known, there)))))
  ]

  -- The handlers that are registered for the type of an object restore it.
  abbrev pub Restores : MsgpackSerializer T V → V → Type 0
  Restores s obj =
      (i : ℤ) (h : Handlers V) (data_ : Bytes)
      → entry dec (type_of obj) s ≡ some (i, h)
      → h.pack obj ≡ ok data_
      → h.unpack data_ ≡ ok obj

  -- `ExtType` keeps what it is given, if it does not raise.
  abbrev pub IsFaithful : Type 0
  IsFaithful =
      (i c : ℤ) (data_ d : Bytes) → msgpack.ext_type i data_ ≡ ok (c, d) → (c ≡ i) × (d ≡ data_)

  packed :
      (r : Result Bytes) (i c : ℤ) (d : Bytes)
      → IsFaithful
      → and_then r (λ data_. msgpack.ext_type i data_) ≡ ok (c, d)
      → (c ≡ i) × (r ≡ ok d)
  packed (ok data_) i c d law e = let (a, b) = law i c data_ d e in (a, ap ok (sym b))
  packed (raise exc) i c d law e = absurd (ground (arith, e))

  -- In a consistent serializer, what `_default` makes of an object whose handlers restore it,
  -- `_ext_hook` turns back into that object.
  pub ext_hook-default :
      (s : MsgpackSerializer T V) (obj : V) (code : ℤ) (data_ : Bytes)
      → IsConsistent dec s
      → IsFaithful
      → Restores s obj
      → default dec type_of msgpack s obj ≡ ok (code, data_)
      → ext_hook dec type_of msgpack s code data_ ≡ ok obj
  unfolding ext_hook
  ext_hook-default s obj code data_ p law restores e = elim (default-outcome s obj p) [
    | inl (_, refused) ↦ absurd (ground (arith, refused, e))
    | inr (i, (h, (known, (there, made)))) ↦
        let (same, dumped) = packed (h.pack obj) i code data_ law (sym made ∙ e) in
        ground (arith, same, there, restores i h data_ known dumped)
  ]

  -- What is relied on of `packb` and `unpackb`, for the values of `IsPlain` (a tuple comes back as a
  -- list): unpacking restores what was packed if the hook restores each object that `default` packed.
  abbrev pub IsMsgpack : (V → Type 0) → Type 0
  IsMsgpack IsPlain =
      (to_ext : V → Result (ℤ × Bytes)) (hook : ℤ → Bytes → Result V) (value : V) (raw : Bytes)
      → IsPlain value
      → ((obj : V) (code : ℤ) (data_ : Bytes)
          → to_ext obj ≡ ok (code, data_)
          → hook code data_ ≡ ok obj)
      → msgpack.packb to_ext value ≡ ok raw
      → msgpack.unpackb hook raw ≡ ok value

  -- If the handlers of all types restore their objects, then in a consistent serializer `loads` gives
  -- back each plain value that `dumps` does not raise for.
  pub msgpack-loads-dumps :
      (IsPlain : V → Type 0) (s : MsgpackSerializer T V) (value : V) (raw : Bytes)
      → IsMsgpack IsPlain
      → IsFaithful
      → IsConsistent dec s
      → ((obj : V) → Restores s obj)
      → IsPlain value
      → dumps dec type_of msgpack s value ≡ ok raw
      → RoundTrips (msgpack_serializer dec type_of msgpack s) value
  unfolding dumps loads unpacked
  msgpack-loads-dumps IsPlain s value raw law faithful p restores plain dumped =
      let unpacks =
        law (default dec type_of msgpack s) (ext_hook dec type_of msgpack s) value raw plain
          (λ obj code data_. ext_hook-default s obj code data_ p faithful (restores obj)) dumped in
      (raw, (dumped, ground (arith, unpacks)))
