-- ===== src/Cache/Laws.antt =====
-- src/pysilience/cache.py: what the operations of `MemoryBackend` do to its store.
use native.Mathlib.Decide.{dec_lt}
use pysilience.Prelude.{
  ℕ, suc, ◌+◌, ◌-◌, ◌≤◌, ◌<◌, ◌≡◌, ◌∙◌, ap, sym, lt→not_leb, le→leb, inl, inr, Option, none, some,
  List, [], ◌∷◌, ◌++◌, length, drop, last, length-append, length-drop, drop-append, arith,
  Option-cases,
}
use pysilience.Python.{Result, ok, monotonic}
use pysilience.Python.Dict.{
  find, remove, move_to_end, Distinct, find-remove_self, length-remove, remove-Distinct,
  assign_absent, assign-append_self, append-Distinct, remove_absent, find-drop_absent,
  drop-Distinct,
}
use pysilience.Cache.Memory.{Entry, Memory, evict, stamped, put_new, put}

-- The eviction loop ends, raises nothing, and keeps the newest `max_size - 1` entries.
evict-drop {ℓ} :
    {A : Type ℓ} (n : ℕ) (xs : List A) → 0 < n → evict n xs ≡ ok (drop (length xs + 1 - n) xs)
unfolding evict
evict-drop n [] p = let z : 1 - n ≡ 0 = omega arith in rw (lt→not_leb n 0 p, z)
evict-drop n (x ∷ xs) p = elim (dec_lt (suc (length xs)) n) [
  | yes room ↦
      let z : suc (length xs) + 1 - n ≡ 0 = omega arith in
      rw (lt→not_leb n (suc (length xs)) room, z)
  | no full ↦
      let more : suc (length xs) + 1 - n ≡ suc (length xs + 1 - n) = omega arith in
      rw (le→leb n (suc (length xs)) (omega arith), more) (evict-drop n xs p)
]

module _ {ℓ} {K V : Type ℓ} (dec : Discrete K) where
  pub record IsValid (m : Memory K V) : Type ℓ where
    pub positive : 0 < m.max_size
    pub bounded : length m.store ≤ m.max_size
    pub distinct : Distinct dec m.store

  -- The entry moved to the end, or added there.
  abbrev pub touch : K → Entry V → List (K × Entry V) → List (K × Entry V)
  touch k e d = remove dec k d ++ ((k, e) ∷ [])

  pub length-touch_found :
      (k : K) (e f : Entry V) (d : List (K × Entry V))
      → find dec k d ≡ some f
      → length (touch k e d) ≡ length d
  length-touch_found k e f d h =
      omega (arith, length-append (remove dec k d) ((k, e) ∷ []), length-remove dec k f d h)

  pub touch-Distinct :
      (k : K) (e : Entry V) (d : List (K × Entry V)) → Distinct dec d → Distinct dec (touch k e d)
  touch-Distinct k e d h =
      append-Distinct dec k e (remove dec k d) (find-remove_self dec k d h)
        (remove-Distinct dec k d h)

  module _ (k : K) (v : V) (ttl : Option ℕ) (m : Memory K V) (h : IsValid m) where
    pub put_present :
        (old : Entry V)
        → find dec k m.store ≡ some old
        → put dec k v ttl m
          ≡ (ok tt, record m { store = touch k (stamped v m) m.store; clock = monotonic m.clock })
    unfolding put move_to_end
    put_present old e = rw (
      e,
      put,
      assign-append_self dec k (stamped v m) old (remove dec k m.store)
          (find-remove_self dec k m.store h.distinct),
    )

    pub put_absent :
        find dec k m.store ≡ none
        → put dec k v ttl m ≡ (
          ok tt,
          record m {
            store = drop (length m.store + 1 - m.max_size) m.store ++ ((k, stamped v m) ∷ []);
            clock = monotonic m.clock;
          },
        )
    unfolding put put_new
    put_absent e = rw (
      e,
      put,
      evict-drop m.max_size m.store h.positive,
      put_new,
      assign_absent dec k (stamped v m) (drop (length m.store + 1 - m.max_size) m.store)
          (find-drop_absent dec k _ m.store e),
    )

    kept_absent :
        find dec k m.store ≡ none
        → drop (length m.store + 1 - m.max_size) m.store ++ ((k, stamped v m) ∷ [])
          ≡ last m.max_size (touch k (stamped v m) m.store)
    kept_absent e =
        let new : List (K × Entry V) = (k, stamped v m) ∷ [] in
        rw (remove_absent dec k m.store e, length-append m.store new)
          (sym
            (drop-append (length m.store + 1 - m.max_size) m.store new (omega (arith, h.positive))))

    kept_present :
        (old : Entry V)
        → find dec k m.store ≡ some old
        → last m.max_size (touch k (stamped v m) m.store) ≡ touch k (stamped v m) m.store
    kept_present old e =
        let all : length (touch k (stamped v m) m.store) - m.max_size ≡ 0 =
          omega (arith, h.bounded, length-touch_found k (stamped v m) old m.store e) in
        rw all

    -- The outcome of a `put` that leaves `store`.
    abbrev done : List (K × Entry V) → Result (Unit {0}) × Memory K V
    done store = (ok tt, record m { store = store; clock = monotonic m.clock })

    -- `put` never raises. It makes the entry the most recently used and keeps the last `max_size`
    -- entries: what it evicts is the least recently used.
    pub put-last : put dec k v ttl m ≡ (
      ok tt,
      record m {
        store = last m.max_size (touch k (stamped v m) m.store);
        clock = monotonic m.clock;
      },
    )
    put-last = elim (Option-cases (find dec k m.store)) [
      | inl absent ↦ put_absent absent ∙ ap done (kept_absent absent)
      | inr (old, e) ↦ put_present old e ∙ ap done (sym (kept_present old e))
    ]

  -- Every operation keeps the store within `max_size` and its keys distinct.
  pub put-IsValid :
      (k : K) (v : V) (ttl : Option ℕ) (m : Memory K V) → IsValid m → IsValid (put dec k v ttl m).1
  put-IsValid k v ttl m h = rw (put-last k v ttl m h) (record {
    positive = h.positive;
    bounded = omega (arith, length-drop _ (touch k (stamped v m) m.store));
    distinct = drop-Distinct dec _ _ (touch-Distinct k (stamped v m) m.store h.distinct);
  })
