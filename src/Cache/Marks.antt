-- ===== src/Cache/Marks.antt =====
-- src/pysilience/cache.py: concurrent callers of `execute_async`, over any backend. The steps are the
-- blocks under the lock and the accesses to the backend, in any order; `computing` are the keys whose
-- factory runs.
use mathlib.Core.Path.{subst}
use pysilience.Prelude.{true, false, ◌≡◌, refl, sym, List, [], ◌∷◌, ◌++◌, All, Bool-cases, inl, inr}
use pysilience.Cache.Config.{CacheBackend, Event}
use pysilience.Python.Sets.{contains_self}
use pysilience.Cache.Keys.{join_others, Once, All-drop, Once-drop, discard-All}
use pysilience.Cache.Coordination.{Cache, Reservation, reserved, busy, contains}
use pysilience.Cache.Async.{mark, async_unreserve}

module _ {ℓ} {K V B : Type ℓ} (dec : Discrete K) (ops : CacheBackend K V B) where
  pub record System : Type ℓ where
    pub cache : Cache K B
    pub computing : List K

  pub data Step (s : System) : System → Type ℓ where
    -- the backend is read or written, for whichever caller
    accessed : (b : B) → Step s (record s { cache = record (s.cache) { backend = b } })
    -- the listeners are told
    told :
        (events : List (Event K))
        → Step s (record s { cache = record (s.cache) { events = events } })
    -- a caller marks the key, and starts to compute
    marked :
        {c : Cache K B} (key : K)
        → mark dec ops key s.cache ≡ (reserved, c)
        → Step s (record { cache = c; computing = key ∷ s.computing })
    -- a caller finds the key marked, and waits
    waited :
        {c : Cache K B} (key : K)
        → mark dec ops key s.cache ≡ (busy, c)
        → Step s (record s { cache = c })
    -- a caller has stored its value, or failed
    unmarked :
        (before after : List K) (key : K)
        → s.computing ≡ before ++ (key ∷ after)
        → Step s
            (record { cache = async_unreserve dec ops key s.cache; computing = before ++ after })
    -- a caller is cancelled, or the backend raises as it stores: the mark stays
    abandoned :
        (before after : List K) (key : K)
        → s.computing ≡ before ++ (key ∷ after)
        → Step s (record s { computing = before ++ after })

  pub data Reach (s : System) : System → Type ℓ where
    here : Reach s s
    next : {t u : System} → Reach s t → Step t u → Reach s u

  -- What `mark` means for the marks.
  abbrev Marked : K → Cache K B → Reservation V × Cache K B → Type ℓ
  Marked key c (reserved, c') =
      (contains dec key c.async_inflight ≡ false) × (c'.async_inflight ≡ key ∷ c.async_inflight)
  Marked key c (_, c') = c'.async_inflight ≡ c.async_inflight

  mark-Marked : (key : K) (c : Cache K B) → Marked key c (mark dec ops key c)
  unfolding mark
  mark-Marked key c = elim (Bool-cases (contains dec key c.async_inflight)) [
    | inl held ↦ rw held refl
    | inr new ↦ rw new (new, refl)
  ]

  -- Each key that is computed is marked, and none is computed twice at a time.
  pub record IsMarked (s : System) : Type ℓ where
    pub in_flight : All (λ k. contains dec k s.cache.async_inflight ≡ true) s.computing
    pub once : Once dec s.computing

  abbrev Holds : List K → List K → Type 0
  Holds js ks = All (λ k. contains dec k ks ≡ true) js

  Step-IsMarked : {s t : System} → Step s t → IsMarked s → IsMarked t
  unfolding async_unreserve
  Step-IsMarked (accessed b) h = record { in_flight = h.in_flight; once = h.once }
  Step-IsMarked (told events) h = record { in_flight = h.in_flight; once = h.once }
  Step-IsMarked {s} (marked {c} key e) h =
      let (new, joined) = subst (Marked key s.cache) e (mark-Marked key s.cache) in
      let (held, others) = join_others dec key s.cache.async_inflight s.computing new h.in_flight in
      record {
        in_flight =
            subst (Holds (key ∷ s.computing)) (sym joined)
              (contains_self dec key s.cache.async_inflight, held);
        once = (others, h.once);
      }
  Step-IsMarked {s} (waited {c} key e) h =
      let same = subst (Marked key s.cache) e (mark-Marked key s.cache) in
      record { in_flight = subst (Holds s.computing) (sym same) h.in_flight; once = h.once }
  Step-IsMarked {s} (unmarked before after key e) h =
      let once = subst (Once dec) e h.once in
      let held = subst (λ js. Holds js s.cache.async_inflight) e h.in_flight in
      record {
        in_flight = discard-All dec before after key s.cache.async_inflight once held;
        once = Once-drop dec before after key once;
      }
  Step-IsMarked {s} (abandoned before after key e) h =
      let once = subst (Once dec) e h.once in
      let held = subst (λ js. Holds js s.cache.async_inflight) e h.in_flight in
      record {
        in_flight = All-drop dec _ before after key held;
        once = Once-drop dec before after key once;
      }

  Reach-IsMarked : {s t : System} → IsMarked s → Reach s t → IsMarked t
  Reach-IsMarked h here = h
  Reach-IsMarked h (next r step) = Step-IsMarked step (Reach-IsMarked h r)

  -- However coroutines interleave, over any backend and whatever it answers, at most one of them at a
  -- time computes a key, and the key is marked meanwhile; callers that are cancelled included.
  pub reachable-IsMarked :
      (c : Cache K B) {s : System}
      → Reach (record { cache = c; computing = [] }) s
      → Once dec s.computing × All (λ k. contains dec k s.cache.async_inflight ≡ true) s.computing
  reachable-IsMarked c r =
      let safe = Reach-IsMarked (record { in_flight = tt; once = tt }) r in
      (safe.once, safe.in_flight)
