-- ===== src/Serializer/Msgpack/Registry.antt =====
-- src/pysilience/cache_serializer_msgpack.py: the two dictionaries of a `MsgpackSerializer` agree.
use pysilience.Prelude.{
  ◌≡◌, ◌≢◌, refl, sym, ap, ◌∙◌, Option, none, some, List, [], ◌∷◌, ◌⊎◌, inl, inr, arith,
}
use pysilience.Python.{ok, ℤ, ℤ-discrete}
use pysilience.Python.Dict.{
  find, Distinct, find-remove_ne, find-remove_self, remove-Distinct, find-assign_self,
  find-assign_ne, assign-Distinct,
}
use pysilience.Serializer.Msgpack.{Handlers, MsgpackSerializer, init, owner_of, drop_old, install}

module _ {T : Type 0} (dec : Discrete T) where
  -- `next` finds the owner of an identifier that a type has.
  pub owner-find :
      (t : T) (i : ℤ) (d : List (T × ℤ))
      → Distinct dec d
      → find dec t d ≡ some i
      → (u : T) × ((owner_of i d ≡ ok u) × (find dec u d ≡ some i))
  unfolding find owner_of
  owner-find t i [] p h = absurd (ground arith)
  owner-find t i ((u, j) ∷ d) p h = elim (ℤ-discrete j i) [
    | yes e ↦ (u, (ground arith, ground arith))
    | no ne ↦
        let (x, (own, found)) = owner-find t i d p.1 (ground arith) in
        (x, (ground arith, ground arith))
  ]

-- Identifiers other than the old one keep their handlers.
find-drop_old :
    {V : Type 0} (i : ℤ) (old : Option ℤ) (new_id : ℤ) (d : List (ℤ × Handlers V))
    → old ≢ some i
    → find ℤ-discrete i (drop_old old new_id d) ≡ find ℤ-discrete i d
unfolding drop_old
find-drop_old i none new_id d h = refl
find-drop_old i (some old) new_id d h =
    ground (arith, find-remove_ne ℤ-discrete i old d (λ e. h (sym (ap some e))))

drop_old-Distinct :
    {V : Type 0} (old : Option ℤ) (new_id : ℤ) (d : List (ℤ × Handlers V))
    → Distinct ℤ-discrete d
    → Distinct ℤ-discrete (drop_old old new_id d)
unfolding drop_old
drop_old-Distinct none new_id d h = h
drop_old-Distinct (some old) new_id d h = ground (arith, remove-Distinct ℤ-discrete old d h)

-- An old identifier that is not the new one has no handlers left.
find-drop_old_self :
    {V : Type 0} (i new_id : ℤ) (d : List (ℤ × Handlers V))
    → Distinct ℤ-discrete d
    → i ≢ new_id
    → find ℤ-discrete i (drop_old (some i) new_id d) ≡ none
unfolding drop_old
find-drop_old_self i new_id d p h = ground (arith, find-remove_self ℤ-discrete i d p)

module _ {T V : Type 0} (dec : Discrete T) where
  -- The identifiers of the types are those that have handlers, each of one type.
  pub record IsConsistent (s : MsgpackSerializer T V) : Type 0 where
    pub types : Distinct dec s.ext_by_type
    pub ids : Distinct ℤ-discrete s.handlers_by_id
    pub one_owner :
        (t u : T) (i : ℤ)
        → find dec t s.ext_by_type ≡ some i
        → find dec u s.ext_by_type ≡ some i
        → t ≡ u
    pub handled :
        (t : T) (i : ℤ)
        → find dec t s.ext_by_type ≡ some i
        → (h : Handlers V) × (find ℤ-discrete i s.handlers_by_id ≡ some h)
    pub owned :
        (i : ℤ) (h : Handlers V)
        → find ℤ-discrete i s.handlers_by_id ≡ some h
        → (t : T) × (find dec t s.ext_by_type ≡ some i)

  pub init-IsConsistent : IsConsistent init
  unfolding init find
  init-IsConsistent = record {
    types = tt;
    ids = tt;
    one_owner = λ t u i h. absurd (ground arith);
    handled = λ t i h. absurd (ground arith);
    owned = λ i h e. absurd (ground arith);
  }

  -- What `register_at` makes sure of before it installs handlers: the identifier is free, or the
  -- type's own.
  abbrev pub IsFree : T → ℤ → MsgpackSerializer T V → Type 0
  IsFree typ i s =
      (find ℤ-discrete i s.handlers_by_id ≡ none) ⊎ (find dec typ s.ext_by_type ≡ some i)

  module _ (typ : T) (g : Handlers V) (i : ℤ) (s : MsgpackSerializer T V) (p : IsConsistent s)
      (free : IsFree typ i s) where
    -- No other type has the identifier.
    pub others : (t : T) → t ≢ typ → find dec t s.ext_by_type ≢ some i
    others t ne e = elim free [
      | inr own ↦ ne (p.one_owner t typ i e own)
      | inl none_there ↦ let (h, there) = p.handled t i e in ground (arith, none_there, there)
    ]

    pub find-install_ne :
        (t : T)
        → t ≢ typ
        → find dec t (install dec typ g i s).ext_by_type ≡ find dec t s.ext_by_type
    unfolding install
    find-install_ne t ne = find-assign_ne dec t typ i s.ext_by_type ne

    pub find-install_self : find dec typ (install dec typ g i s).ext_by_type ≡ some i
    unfolding install
    find-install_self = find-assign_self dec typ i s.ext_by_type

    pub handlers-install_self : find ℤ-discrete i (install dec typ g i s).handlers_by_id ≡ some g
    unfolding install
    handlers-install_self = find-assign_self ℤ-discrete i g _

    -- Identifiers of other types keep their handlers.
    pub handlers-install_ne :
        (j : ℤ)
        → j ≢ i
        → find dec typ s.ext_by_type ≢ some j
        → find ℤ-discrete j (install dec typ g i s).handlers_by_id
          ≡ find ℤ-discrete j s.handlers_by_id
    unfolding install
    handlers-install_ne j ne not_old =
        find-assign_ne ℤ-discrete j i g _ ne
        ∙ find-drop_old j (find dec typ s.ext_by_type) i s.handlers_by_id not_old

    -- The old identifier of the type loses its handlers.
    dropped :
        (j : ℤ)
        → j ≢ i
        → find dec typ s.ext_by_type ≡ some j
        → (h : Handlers V) → find ℤ-discrete j (install dec typ g i s).handlers_by_id ≢ some h
    unfolding install
    dropped j ne old h e =
        let gone = find-drop_old_self j i s.handlers_by_id p.ids ne in
        let kept = find-assign_ne ℤ-discrete j i g (drop_old (some j) i s.handlers_by_id) ne in
        ground (arith, rw old at e, gone, kept)

    install-one_owner :
        (t u : T) (j : ℤ)
        → find dec t (install dec typ g i s).ext_by_type ≡ some j
        → find dec u (install dec typ g i s).ext_by_type ≡ some j
        → t ≡ u
    install-one_owner t u j e f = elim (dec t typ) [
      | yes a ↦ elim (dec u typ) [
        | yes b ↦ a ∙ sym b
        | no b ↦ absurd (others u b (cc (find-install_ne u b, find-install_self)))
      ]
      | no a ↦ elim (dec u typ) [
        | yes b ↦ absurd (others t a (cc (find-install_ne t a, find-install_self)))
        | no b ↦ p.one_owner t u j (sym (find-install_ne t a) ∙ e) (sym (find-install_ne u b) ∙ f)
      ]
    ]

    install-handled :
        (t : T) (j : ℤ)
        → find dec t (install dec typ g i s).ext_by_type ≡ some j
        → (h : Handlers V) × (find ℤ-discrete j (install dec typ g i s).handlers_by_id ≡ some h)
    install-handled t j e = elim (dec t typ) [
      | yes a ↦ (g, cc (find-install_self, handlers-install_self))
      | no a ↦
          let before : find dec t s.ext_by_type ≡ some j = sym (find-install_ne t a) ∙ e in
          let (h, there) = p.handled t j before in
          (
            h,
            handlers-install_ne j (λ same. others t a (cc (before, same)))
                  (λ own. a (p.one_owner t typ j before own))
                ∙ there,
          )
    ]

    install-owned :
        (j : ℤ) (h : Handlers V)
        → find ℤ-discrete j (install dec typ g i s).handlers_by_id ≡ some h
        → (t : T) × (find dec t (install dec typ g i s).ext_by_type ≡ some j)
    install-owned j h e = elim (ℤ-discrete j i) [
      | yes a ↦ (typ, cc find-install_self)
      | no a ↦
          let not_old : find dec typ s.ext_by_type ≢ some j = λ old. dropped j a old h e in
          let (t, there) = p.owned j h (sym (handlers-install_ne j a not_old) ∙ e) in
          (t, find-install_ne t (λ same. not_old (cc (there, same))) ∙ there)
    ]

    pub install-IsConsistent : IsConsistent (install dec typ g i s)
    unfolding install
    install-IsConsistent = record {
      types = assign-Distinct dec typ i s.ext_by_type p.types;
      ids =
          assign-Distinct ℤ-discrete i g _
            (drop_old-Distinct (find dec typ s.ext_by_type) i s.handlers_by_id p.ids);
      one_owner = install-one_owner;
      handled = install-handled;
      owned = install-owned;
    }
