-- ===== src/Cache/Coalesce.antt =====
-- src/pysilience/cache.py: concurrent callers of `execute`. The steps are the blocks under the
-- lock, in any order; `computing` are the keys whose `func` runs.
use mathlib.Core.Path.{subst}
use pysilience.Prelude.{
  true, false, ◌≡◌, ◌≢◌, refl, sym, ◌⊎◌, Option, none, some, List, [], ◌∷◌, ◌++◌, All, Bool-cases,
  inl, inr,
}
use pysilience.Python.{is_exception, Result, ok, raise}
use pysilience.Cache.Config.{CacheBackend}
use pysilience.Cache.Coordination.{
  Cache, Reservation, cached, reserved, busy, failed, contains, discard, reserve_with, reserve,
  sync_unreserve, stored, finish, invalidate, invalidate_all,
}
use pysilience.Python.Sets.{contains_self}
use pysilience.Cache.Keys.{join_others, Once, All-drop, Once-drop, discard-All}

module _ {ℓ} {K V B : Type ℓ} (dec : Discrete K) (ops : CacheBackend K V B) where
  pub record System : Type ℓ where
    pub cache : Cache K B
    pub computing : List K

  pub data Step (s : System) : System → Type ℓ where
    -- a caller is served, has to wait, or sees the backend raise
    asked :
        {c : Cache K B} (key : K) (answer : Reservation V)
        → reserve dec ops key s.cache ≡ (answer, c)
        → answer ≢ reserved
        → Step s (record s { cache = c })
    -- a caller starts to compute
    started :
        {c : Cache K B} (key : K)
        → reserve dec ops key s.cache ≡ (reserved, c)
        → Step s (record { cache = c; computing = key ∷ s.computing })
    -- a caller's `func` ends, with a result or any exception
    ended :
        (before after : List K) (key : K) (result : Result V)
        → s.computing ≡ before ++ (key ∷ after)
        → Step s
            (record { cache = (finish dec ops key result s.cache).1; computing = before ++ after })
    dropped : (key : K) → Step s (record s { cache = (invalidate dec ops key s.cache).1 })
    dropped_all : Step s (record s { cache = (invalidate_all dec ops s.cache).1 })

  pub data Reach (s : System) : System → Type ℓ where
    here : Reach s s
    next : {t u : System} → Reach s t → Step t u → Reach s u

  -- A key that is being computed is in flight, and no key is computed twice at a time.
  pub record IsCoalesced (s : System) : Type ℓ where
    pub in_flight : All (λ k. contains dec k s.cache.inflight ≡ true) s.computing
    pub once : Once dec s.computing

  -- What an answer means for the keys in flight.
  abbrev Answered : K → Cache K B → Reservation V × Cache K B → Type ℓ
  Answered key c (reserved, c') =
      (contains dec key c.inflight ≡ false) × (c'.inflight ≡ key ∷ c.inflight)
  Answered key c (_, c') = c'.inflight ≡ c.inflight

  reserve_with-Answered :
      (r : Result (Option V)) (key : K) (c : Cache K B)
      → Answered key c (reserve_with dec ops r key c)
  unfolding reserve_with
  reserve_with-Answered (raise err) key c = refl
  reserve_with-Answered (ok (some v)) key c = refl
  reserve_with-Answered (ok none) key c = elim (Bool-cases (contains dec key c.inflight)) [
    | inl held ↦ rw held refl
    | inr new ↦ rw new (new, refl)
  ]

  finish-inflight :
      (key : K) (result : Result V) (c : Cache K B)
      → ((finish dec ops key result c).1.inflight ≡ c.inflight)
        ⊎ ((finish dec ops key result c).1.inflight ≡ discard dec key c.inflight)
  unfolding finish stored sync_unreserve
  finish-inflight key (ok v) c = of_stored (ops.put key v c.config.ttl c.backend)
    where
      of_stored :
          (p : Result (Unit {0}) × B)
          → ((stored dec ops p.0 key v (record c { backend = p.1 })).1.inflight ≡ c.inflight)
            ⊎ ((stored dec ops p.0 key v (record c { backend = p.1 })).1.inflight
                ≡ discard dec key c.inflight)
      of_stored (raise err, b) = inl refl
      of_stored (ok u, b) = inr refl
  finish-inflight key (raise exc) c = elim (Bool-cases (is_exception exc)) [
    | inl caught ↦ inr (rw caught)
    | inr passes ↦ inl (rw passes)
  ]

  kept :
      (key : K) (c c' : Cache K B) (answer : Reservation V)
      → Answered key c (answer, c')
      → answer ≢ reserved
      → c'.inflight ≡ c.inflight
  kept key c c' (cached v) h ne = h
  kept key c c' reserved h ne = absurd (ne refl)
  kept key c c' busy h ne = h
  kept key c c' (failed err) h ne = h

  reserve-Answered : (key : K) (c : Cache K B) → Answered key c (reserve dec ops key c)
  unfolding reserve
  reserve-Answered key c =
      reserve_with-Answered (ops.get key c.backend).0 key
        (record c { backend = (ops.get key c.backend).1 })

  -- What `in_flight` says of the keys in flight and those that are computed.
  abbrev Holds : List K → List K → Type 0
  Holds js ks = All (λ k. contains dec k ks ≡ true) js

  Step-IsCoalesced : {s t : System} → Step s t → IsCoalesced s → IsCoalesced t
  unfolding invalidate invalidate_all
  Step-IsCoalesced {s} (asked {c} key answer e ne) h =
      let same =
        kept key s.cache c answer (subst (Answered key s.cache) e (reserve-Answered key s.cache))
          ne in
      record { in_flight = subst (Holds s.computing) (sym same) h.in_flight; once = h.once }
  Step-IsCoalesced {s} (started {c} key e) h =
      let (new, joined) = subst (Answered key s.cache) e (reserve-Answered key s.cache) in
      let (held, others) = join_others dec key s.cache.inflight s.computing new h.in_flight in
      record {
        in_flight =
            subst (Holds (key ∷ s.computing)) (sym joined)
              (contains_self dec key s.cache.inflight, held);
        once = (others, h.once);
      }
  Step-IsCoalesced {s} (ended before after key result e) h =
      let once = subst (Once dec) e h.once in
      let held = subst (λ js. Holds js s.cache.inflight) e h.in_flight in
      record {
        in_flight = elim (finish-inflight key result s.cache) [
          | inl same ↦
              subst (Holds (before ++ after)) (sym same) (All-drop dec _ before after key held)
          | inr gone ↦
              subst (Holds (before ++ after)) (sym gone)
                (discard-All dec before after key s.cache.inflight once held)
        ];
        once = Once-drop dec before after key once;
      }
  Step-IsCoalesced (dropped key) h = record { in_flight = h.in_flight; once = h.once }
  Step-IsCoalesced dropped_all h = record { in_flight = h.in_flight; once = h.once }

  Reach-IsCoalesced : {s t : System} → IsCoalesced s → Reach s t → IsCoalesced t
  Reach-IsCoalesced h here = h
  Reach-IsCoalesced h (next r step) = Step-IsCoalesced step (Reach-IsCoalesced h r)

  -- However the blocks of concurrent callers interleave, from an object that nothing is computed
  -- for, at most one caller at a time computes a key, and its key is in flight meanwhile: whatever
  -- the backend answers, and however the calls of `func` end.
  pub reachable-IsCoalesced :
      (c : Cache K B) {s : System}
      → Reach (record { cache = c; computing = [] }) s
      → Once dec s.computing × All (λ k. contains dec k s.cache.inflight ≡ true) s.computing
  reachable-IsCoalesced c r =
      let safe = Reach-IsCoalesced (record { in_flight = tt; once = tt }) r in
      (safe.once, safe.in_flight)
