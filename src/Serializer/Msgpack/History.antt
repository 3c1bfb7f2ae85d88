-- ===== src/Serializer/Msgpack/History.antt =====
-- src/pysilience/cache_serializer_msgpack.py: any sequence of registering and unregistering.
use pysilience.Prelude.{◌≡◌, refl, Option, some, List, [], ◌∷◌, ◌⊎◌, inl, inr, Bool-cases, All}
use pysilience.Python.{value_error, type_error, Result, ok, raise, ℤ}
use pysilience.Serializer.Msgpack.{
  Handlers, MsgpackSerializer, PyClass, init, is_instance_method, is_classmethod, register_type,
  unregister_type, register,
}
use pysilience.Serializer.Msgpack.Registry.{IsConsistent, init-IsConsistent}
use pysilience.Serializer.Msgpack.Registering.{register_type-outcome}
use pysilience.Serializer.Msgpack.Removal.{unregister_type-Updates}

pub data Operation (T V : Type 0) : Type 0 where
  registration : T → Handlers V → Option ℤ → Operation T V
  decoration : ℤ → PyClass T V → Operation T V
  removal : T → Operation T V

-- The answers that the code means to give.
abbrev pub IsExpected : Result (Unit {0}) → Type 0
IsExpected r = (r ≡ ok tt) ⊎ ((r ≡ raise value_error) ⊎ (r ≡ raise type_error))

module _ {T V : Type 0} (dec : Discrete T) where
  abbrev pub apply :
      Operation T V → MsgpackSerializer T V → Result (Unit {0}) × MsgpackSerializer T V
  apply (registration typ g type_id) s = register_type dec typ g type_id s
  apply (decoration type_id cls) s = register dec type_id cls s
  apply (removal typ) s = (ok tt, unregister_type dec typ s)

  -- The answers of a sequence of operations, and the serializer after it.
  abbrev pub apply_all :
      List (Operation T V)
      → MsgpackSerializer T V
      → List (Result (Unit {0})) × MsgpackSerializer T V
  apply_all [] s = ([], s)
  apply_all (op ∷ ops) s =
      let (answer, s') = apply op s in
      let (answers, s'') = apply_all ops s' in (answer ∷ answers, s'')

  register_type-IsConsistent :
      (typ : T) (g : Handlers V) (type_id : Option ℤ) (s : MsgpackSerializer T V)
      → IsConsistent dec s
      → IsExpected (register_type dec typ g type_id s).0
        × IsConsistent dec (register_type dec typ g type_id s).1
  register_type-IsConsistent typ g type_id s p =
      elim (register_type-outcome dec typ g type_id s p) [
        | inl (refused, _) ↦ rw refused (inr (inl refl), p)
        | inr (i, (_, (done, updates))) ↦ (inl done, updates.consistent)
      ]

  apply-IsConsistent :
      (op : Operation T V) (s : MsgpackSerializer T V)
      → IsConsistent dec s
      → IsExpected (apply op s).0 × IsConsistent dec (apply op s).1
  unfolding register
  apply-IsConsistent (registration typ g type_id) s p = register_type-IsConsistent typ g type_id s p
  apply-IsConsistent (removal typ) s p =
      (inl refl, (unregister_type-Updates dec typ s p).consistent)
  apply-IsConsistent (decoration type_id cls) s p =
      elim (Bool-cases (is_instance_method cls.mro "__pack__")) [
        | inr no_pack ↦ rw no_pack (inr (inr refl), p)
        | inl packs ↦ elim (Bool-cases (is_classmethod cls.mro "__unpack__")) [
          | inr no_unpack ↦ rw packs (rw no_unpack (inr (inr refl), p))
          | inl unpacks ↦
              rw packs
                (rw unpacks (register_type-IsConsistent cls.typ cls.handlers (some type_id) s p))
        ]
      ]

  apply_all-IsConsistent :
      (ops : List (Operation T V)) (s : MsgpackSerializer T V)
      → IsConsistent dec s
      → All IsExpected (apply_all ops s).0 × IsConsistent dec (apply_all ops s).1
  apply_all-IsConsistent [] s p = (tt, p)
  apply_all-IsConsistent (op ∷ ops) s p =
      let (expected, p') = apply-IsConsistent op s p in
      let (all_expected, p'') = apply_all-IsConsistent ops (apply op s).1 p' in
      ((expected, all_expected), p'')

  -- After any sequence of registering and unregistering on a new serializer, its two dictionaries
  -- agree: every identifier with handlers belongs to exactly one type, and every type's identifier
  -- has handlers. Each operation succeeded or raised `ValueError` or `TypeError`: the search for an
  -- owner never raised `StopIteration`.
  pub registry-IsConsistent :
      (ops : List (Operation T V))
      → All IsExpected (apply_all ops init).0 × IsConsistent dec (apply_all ops init).1
  registry-IsConsistent ops = apply_all-IsConsistent ops init (init-IsConsistent dec)
