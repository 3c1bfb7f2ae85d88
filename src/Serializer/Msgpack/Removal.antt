-- ===== src/Serializer/Msgpack/Removal.antt =====
-- src/pysilience/cache_serializer_msgpack.py: what `unregister_type` changes.
use pysilience.Prelude.{◌≡◌, ◌≢◌, refl, sym, ap, ◌∙◌, none, some, inl, inr, arith, Option-cases}
use pysilience.Python.{ℤ, ℤ-discrete}
use pysilience.Python.Dict.{find, remove, find-remove_ne, find-remove_self, remove-Distinct}
use pysilience.Serializer.Msgpack.{Handlers, MsgpackSerializer, unregister_type}
use pysilience.Serializer.Msgpack.Registry.{IsConsistent}
use pysilience.Serializer.Msgpack.Registering.{entry, Updates}

module _ {T V : Type 0} (dec : Discrete T) where
  module _ (typ : T) (i : ℤ) (s : MsgpackSerializer T V) (p : IsConsistent dec s)
      (there : find dec typ s.ext_by_type ≡ some i) where
    -- What is left after the type is removed.
    abbrev rest : MsgpackSerializer T V
    rest = record {
      ext_by_type = remove dec typ s.ext_by_type;
      handlers_by_id = remove ℤ-discrete i s.handlers_by_id;
    }

    survivor :
        (t : T) (j : ℤ)
        → find dec t rest.ext_by_type ≡ some j
        → (t ≢ typ) × (find dec t s.ext_by_type ≡ some j)
    survivor t j e = elim (dec t typ) [
      | yes same ↦ absurd (ground (arith, same, e, find-remove_self dec typ s.ext_by_type p.types))
      | no ne ↦ (ne, sym (find-remove_ne dec t typ s.ext_by_type ne) ∙ e)
    ]

    other_id : (t : T) (j : ℤ) → t ≢ typ → find dec t s.ext_by_type ≡ some j → j ≢ i
    other_id t j ne e same = ne (p.one_owner t typ j e (there ∙ ap some (sym same)))

    kept_handlers :
        (j : ℤ) → j ≢ i → find ℤ-discrete j rest.handlers_by_id ≡ find ℤ-discrete j s.handlers_by_id
    kept_handlers j ne = find-remove_ne ℤ-discrete j i s.handlers_by_id ne

    rest-one_owner :
        (t u : T) (j : ℤ)
        → find dec t rest.ext_by_type ≡ some j
        → find dec u rest.ext_by_type ≡ some j
        → t ≡ u
    rest-one_owner t u j e f = p.one_owner t u j (survivor t j e).1 (survivor u j f).1

    rest-handled :
        (t : T) (j : ℤ)
        → find dec t rest.ext_by_type ≡ some j
        → (h : Handlers V) × (find ℤ-discrete j rest.handlers_by_id ≡ some h)
    rest-handled t j e =
        let (ne, before) = survivor t j e in
        let (h, handles) = p.handled t j before in
        (h, kept_handlers j (other_id t j ne before) ∙ handles)

    rest-owned :
        (j : ℤ) (h : Handlers V)
        → find ℤ-discrete j rest.handlers_by_id ≡ some h
        → (t : T) × (find dec t rest.ext_by_type ≡ some j)
    rest-owned j h e = elim (ℤ-discrete j i) [
      | yes same ↦
          absurd (ground (arith, same, e, find-remove_self ℤ-discrete i s.handlers_by_id p.ids))
      | no ne ↦
          let (t, owns) = p.owned j h (sym (kept_handlers j ne) ∙ e) in
          (
            t,
            find-remove_ne dec t typ s.ext_by_type (λ same. ne (ground (arith, same, owns, there)))
                ∙ owns,
          )
    ]

    entry-rest_ne : (t : T) → t ≢ typ → entry dec t rest ≡ entry dec t s
    entry-rest_ne t ne = elim (Option-cases (find dec t s.ext_by_type)) [
      | inl missing ↦ ground (arith, missing, find-remove_ne dec t typ s.ext_by_type ne)
      | inr (j, found) ↦ ground (
        arith,
        found,
        find-remove_ne dec t typ s.ext_by_type ne,
        kept_handlers j (other_id t j ne found),
      )
    ]

    rest-Updates : Updates dec typ none s rest
    rest-Updates = record {
      consistent = record {
        types = remove-Distinct dec typ s.ext_by_type p.types;
        ids = remove-Distinct ℤ-discrete i s.handlers_by_id p.ids;
        one_owner = rest-one_owner;
        handled = rest-handled;
        owned = rest-owned;
      };
      updated = ground (arith, find-remove_self dec typ s.ext_by_type p.types);
      kept = entry-rest_ne;
    }

  -- In a consistent serializer, `unregister_type` removes the entry of its type, if there is one,
  -- and leaves all other entries as they are.
  pub unregister_type-Updates :
      (typ : T) (s : MsgpackSerializer T V)
      → IsConsistent dec s
      → Updates dec typ none s (unregister_type dec typ s)
  unfolding unregister_type
  unregister_type-Updates typ s p = elim (Option-cases (find dec typ s.ext_by_type)) [
    | inl missing ↦
        rw (missing, unregister_type)
          (record { consistent = p; updated = ground (arith, missing); kept = λ t ne. refl })
    | inr (i, there) ↦ rw (there, unregister_type) (rest-Updates typ i s p there)
  ]
