-- ===== src/Cache/Reads.antt =====
-- src/pysilience/cache.py: what a read of `MemoryBackend` gives and does.

use pysilience.Prelude.{
  ℕ, ◌+◌, ◌-◌, ◌<◌, ◌≡◌, ◌≢◌, ◌∙◌, ◌⊎◌, inl, inr, true, false, Option, none, some, length, last,
  arith, Option-cases, Bool-cases, if◌then◌else◌,
}
use pysilience.Python.{monotonic}
use pysilience.Python.Dict.{
  find, remove, move_to_end, find-remove_ne, find-remove_self, length-remove-le, remove-Distinct,
  find-append_self, find-append_ne, find-drop_absent,
}
use pysilience.Cache.Laws.{
  IsValid, touch, length-touch_found, touch-Distinct, put_present, put_absent, put-last,
}
use pysilience.Cache.Memory.{
  Entry, Memory, get, stamped, put, delete, is_expired, clock_after_check,
}

module _ {ℓ} {K V : Type ℓ} (dec : Discrete K) where
  module _ (k : K) (m : Memory K V) where
    get_absent : find dec k m.store ≡ none → get dec k m ≡ (none, m)
    unfolding get
    get_absent e = ground arith

    get_expired :
        (e : Entry V)
        → find dec k m.store ≡ some e
        → is_expired m.ttl e m.clock ≡ true
        → get dec k m ≡ (
          none,
          record m { store = remove dec k m.store; clock = clock_after_check m.ttl m.clock },
        )
    unfolding get
    get_expired e found old = rw (found, get, old)

    get_fresh :
        (e : Entry V)
        → find dec k m.store ≡ some e
        → is_expired m.ttl e m.clock ≡ false
        → get dec k m ≡ (
          some e.value,
          record m { store = touch dec k e m.store; clock = clock_after_check m.ttl m.clock },
        )
    unfolding get move_to_end
    get_fresh e found new = rw (found, get, new)

    pub get-IsValid : IsValid dec m → IsValid dec (get dec k m).1
    get-IsValid h = elim (Option-cases (find dec k m.store)) [
      | inl absent ↦ rw (get_absent absent) h
      | inr (e, found) ↦ elim (Bool-cases (is_expired m.ttl e m.clock)) [
        | inl old ↦ rw (get_expired e found old) (record {
          positive = h.positive;
          bounded = omega (arith, h.bounded, length-remove-le dec k m.store);
          distinct = remove-Distinct dec k m.store h.distinct;
        })
        | inr new ↦ rw (get_fresh e found new) (record {
          positive = h.positive;
          bounded = omega (arith, h.bounded, length-touch_found dec k e e m.store found);
          distinct = touch-Distinct dec k e m.store h.distinct;
        })
      ]
    ]

    -- A read changes what no other key maps to.
    pub find-get_ne : (q : K) → q ≢ k → find dec q (get dec k m).1.store ≡ find dec q m.store
    find-get_ne q ne = elim (Option-cases (find dec k m.store)) [
      | inl absent ↦ rw (get_absent absent)
      | inr (e, found) ↦ elim (Bool-cases (is_expired m.ttl e m.clock)) [
        | inl old ↦ rw (get_expired e found old) (find-remove_ne dec q k m.store ne)
        | inr new ↦
            rw (get_fresh e found new) (
              find-append_ne dec q k e (remove dec k m.store) ne
              ∙ find-remove_ne dec q k m.store ne)
      ]
    ]

  -- The entry that a `put` leaves under its key.
  find-put_self :
      (k : K) (v : V) (ttl : Option ℕ) (m : Memory K V)
      → IsValid dec m
      → find dec k (put dec k v ttl m).1.store ≡ some (stamped v m)
  find-put_self k v ttl m h = elim (Option-cases (find dec k m.store)) [
    | inl absent ↦
        rw (put_absent dec k v ttl m h absent)
          (find-append_self dec k (stamped v m) _ (find-drop_absent dec k _ m.store absent))
    | inr (old, e) ↦ rw (put_present dec k v ttl m h old e) (
        find-append_self dec k (stamped v m) (remove dec k m.store)
          (find-remove_self dec k m.store h.distinct))
  ]

  -- A read after a write gives the value that was written, until `ttl` has passed since; from then
  -- on it misses.
  pub get-put :
      (k : K) (v : V) (ttl : Option ℕ) (m : Memory K V)
      → IsValid dec m
      → let m' = (put dec k v ttl m).1 in
        (get dec k m').0
        ≡ (if is_expired m.ttl (stamped v m) (monotonic m.clock) then none else some v)
  get-put k v ttl m h =
      let written = put-last dec k v ttl m h in
      let m' : Memory K V = record m {
        store = last m.max_size (touch dec k (stamped v m) m.store);
        clock = monotonic m.clock;
      } in
      let found : find dec k m'.store ≡ some (stamped v m) =
        rw written at (find-put_self k v ttl m h) in
      rw written (elim (Bool-cases (is_expired m'.ttl (stamped v m) m'.clock)) [
        | inl old ↦ rw (get_expired k m' (stamped v m) found old, old)
        | inr new ↦ rw (get_fresh k m' (stamped v m) found new, new)
      ])

  find-put_present :
      (q k : K) (v : V) (ttl : Option ℕ) (m : Memory K V) (e : Entry V)
      → IsValid dec m
      → q ≢ k
      → find dec k m.store ≡ some e
      → find dec q (put dec k v ttl m).1.store ≡ find dec q m.store
  find-put_present q k v ttl m e h ne found = rw (put_present dec k v ttl m h e found) (
      find-append_ne dec q k (stamped v m) (remove dec k m.store) ne
      ∙ find-remove_ne dec q k m.store ne)

  -- A write that evicts nothing, since there is room or its key is there already, leaves every other
  -- key its entry.
  pub find-put_ne :
      (q k : K) (v : V) (ttl : Option ℕ) (m : Memory K V)
      → IsValid dec m
      → q ≢ k
      → (length m.store < m.max_size) ⊎ ((e : Entry V) × (find dec k m.store ≡ some e))
      → find dec q (put dec k v ttl m).1.store ≡ find dec q m.store
  find-put_ne q k v ttl m h ne (inr (e, found)) = find-put_present q k v ttl m e h ne found
  find-put_ne q k v ttl m h ne (inl room) = elim (Option-cases (find dec k m.store)) [
    | inr (e, found) ↦ find-put_present q k v ttl m e h ne found
    | inl absent ↦
        let none_out : length m.store + 1 - m.max_size ≡ 0 = omega arith in
        rw (put_absent dec k v ttl m h absent, none_out)
          (find-append_ne dec q k (stamped v m) m.store ne)
  ]

  pub delete-IsValid : (k : K) (m : Memory K V) → IsValid dec m → IsValid dec (delete dec k m).1
  unfolding delete
  delete-IsValid k m h = elim (Option-cases (find dec k m.store)) [
    | inl absent ↦ rw (absent, delete) h
    | inr (e, found) ↦
        rw (found, delete)
          (record {
            positive = h.positive;
            bounded = omega (arith, h.bounded, length-remove-le dec k m.store);
            distinct = remove-Distinct dec k m.store h.distinct;
          })
  ]
