-- ===== src/Serializer/Msgpack/Registering.antt =====
-- src/pysilience/cache_serializer_msgpack.py: what `register_type` changes.
use pysilience.Prelude.{
  ◌≡◌, ◌≢◌, refl, sym, ap, ◌∙◌, Option, none, some, ◌⊎◌, inl, inr, arith, Option-cases,
}
use pysilience.Python.{value_error, ok, raise, ℤ, ℤ-discrete}
use pysilience.Python.Dict.{find}
use pysilience.Serializer.Msgpack.{
  Handlers, MsgpackSerializer, install, register_at, resolve, register_type,
}
use pysilience.Serializer.Msgpack.Registry.{
  IsConsistent, IsFree, owner-find, install-IsConsistent, find-install_ne, others,
  find-install_self, handlers-install_self, handlers-install_ne,
}

module _ {T V : Type 0} (dec : Discrete T) where
  -- Registering at an identifier that another type has raises and changes nothing; else the type has
  -- the identifier and the handlers.
  pub register_at-cases :
      (typ : T) (g : Handlers V) (i : ℤ) (s : MsgpackSerializer T V)
      → IsConsistent dec s
      → ((register_at dec typ g i s ≡ (raise value_error, s))
          × ((u : T) × ((u ≢ typ) × (find dec u s.ext_by_type ≡ some i))))
        ⊎ (IsFree dec typ i s × (register_at dec typ g i s ≡ (ok tt, install dec typ g i s)))
  unfolding register_at
  register_at-cases typ g i s p = elim (Option-cases (find ℤ-discrete i s.handlers_by_id)) [
    | inl free ↦ inr (inl free, ground (arith, free))
    | inr (h, taken) ↦
        let (t, there) = p.owned i h taken in
        let (u, (first, found)) = owner-find dec t i s.ext_by_type p.types there in
        elim (dec u typ) [
          | yes own ↦ inr (inr (rw own at found), ground (arith, taken, first, own))
          | no other ↦ inl (ground (arith, taken, first, other), (u, (other, found)))
        ]
  ]

  -- What is registered for a type: its identifier and the handlers there.
  abbrev pub entry : T → MsgpackSerializer T V → Option (ℤ × Handlers V)
  entry t s = elim (find dec t s.ext_by_type) [
    | none ↦ none
    | some i ↦ elim (find ℤ-discrete i s.handlers_by_id) [ none ↦ none | some h ↦ some (i, h) ]
  ]

  entry-install_self :
      (typ : T) (g : Handlers V) (i : ℤ) (s : MsgpackSerializer T V)
      → IsConsistent dec s
      → IsFree dec typ i s
      → entry typ (install dec typ g i s) ≡ some (i, g)
  entry-install_self typ g i s p free =
      ground
        (arith, find-install_self dec typ g i s p free, handlers-install_self dec typ g i s p free)

  entry-install_ne :
      (t typ : T) (g : Handlers V) (i : ℤ) (s : MsgpackSerializer T V)
      → IsConsistent dec s
      → IsFree dec typ i s
      → t ≢ typ
      → entry t (install dec typ g i s) ≡ entry t s
  entry-install_ne t typ g i s p free ne = elim (Option-cases (find dec t s.ext_by_type)) [
    | inl missing ↦ ground (arith, missing, find-install_ne dec typ g i s p free t ne)
    | inr (j, there) ↦ ground (
      arith,
      there,
      find-install_ne dec typ g i s p free t ne,
      handlers-install_ne dec typ g i s p free j
          (λ same. others dec typ g i s p free t ne (there ∙ ap some same))
          (λ own. ne (p.one_owner t typ j there own)),
    )
  ]

  -- Only the entry of one type has changed, to `new`.
  pub record Updates (typ : T) (new : Option (ℤ × Handlers V)) (s s' : MsgpackSerializer T V)
      : Type 0 where
    pub consistent : IsConsistent dec s'
    pub updated : entry typ s' ≡ new
    pub kept : (t : T) → t ≢ typ → entry t s' ≡ entry t s

  install-Updates :
      (typ : T) (g : Handlers V) (i : ℤ) (s : MsgpackSerializer T V)
      → IsConsistent dec s
      → IsFree dec typ i s
      → Updates typ (some (i, g)) s (install dec typ g i s)
  install-Updates typ g i s p free = record {
    consistent = install-IsConsistent dec typ g i s p free;
    updated = entry-install_self typ g i s p free;
    kept = λ t ne. entry-install_ne t typ g i s p free ne;
  }

  -- In a consistent serializer, `register_type` either raises `ValueError` and changes nothing,
  -- because no identifier is known or another type has it, or registers the handlers for the type
  -- at its identifier and leaves the entries of all other types as they are.
  pub register_type-outcome :
      (typ : T) (g : Handlers V) (type_id : Option ℤ) (s : MsgpackSerializer T V)
      → IsConsistent dec s
      → ((register_type dec typ g type_id s ≡ (raise value_error, s))
          × ((resolve dec type_id typ s ≡ none)
              ⊎ ((u : T) × ((u ≢ typ) × (find dec u s.ext_by_type ≡ resolve dec type_id typ s)))))
        ⊎ ((i : ℤ) × ((resolve dec type_id typ s ≡ some i)
              × (((register_type dec typ g type_id s).0 ≡ ok tt)
                  × Updates typ (some (i, g)) s (register_type dec typ g type_id s).1)))
  unfolding register_type
  register_type-outcome typ g type_id s p = elim (Option-cases (resolve dec type_id typ s)) [
    | inl unknown ↦ inl (ground (arith, unknown), inl unknown)
    | inr (i, known) ↦ elim (register_at-cases typ g i s p) [
      | inl (refused, (u, (ne, found))) ↦
          inl (ground (arith, known, refused), inr (u, (ne, found ∙ sym known)))
      | inr (free, done) ↦
          let same : register_type dec typ g type_id s ≡ (ok tt, install dec typ g i s) =
            ground (arith, known, done) in
          inr (i, (known, rw same (refl, install-Updates typ g i s p free)))
    ]
  ]
