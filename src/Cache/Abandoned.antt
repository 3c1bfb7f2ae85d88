-- ===== src/Cache/Abandoned.antt =====
-- src/pysilience/cache.py: a key whose `func` ended with an exception that is no `Exception`
-- (`KeyboardInterrupt`, a cancelled task) stays in flight, over the in-memory backend.
use pysilience.Prelude.{true, false, ◌≡◌, refl, none, List, [], ◌∷◌, All}
use mathlib.Core.Logic.{if_pos}
use pysilience.Python.{Exc, is_exception, Result, raise}
use pysilience.Python.Dict.{find}
use pysilience.Cache.Memory.{Memory, get, memory_backend}
use pysilience.Cache.Coordination.{
  Cache, reserved, busy, contains, reserve_with, reserve, sync_check_or_reserve, finish,
  execute_with, execute,
}

abbrev Object {ℓ} : (K V : Type ℓ) → Type ℓ
Object K V = Cache K (Memory K V)

-- A key in flight that is not stored.
pub record Lost {ℓ} {K V : Type ℓ} (dec : Discrete K) (k : K) (c : Object K V) : Type ℓ where
  pub in_flight : contains dec k c.inflight ≡ true
  pub not_stored : find dec k c.backend.store ≡ none

module _ {ℓ} {K V : Type ℓ} (dec : Discrete K) (k : K) where
  -- What others do meanwhile leaves the key lost.
  abbrev pub Keeps : (Object K V → Object K V) → Type ℓ
  Keeps others = (d : Object K V) → Lost dec k d → Lost dec k (others d)

  reserve-Lost : (c : Object K V) → Lost dec k c → reserve dec (memory_backend dec) k c ≡ (busy, c)
  unfolding reserve reserve_with get
  reserve-Lost c h = rw (h.not_stored, get, h.in_flight)

  check-Lost :
      (wakeups : List (Object K V → Object K V)) (c : Object K V)
      → All Keeps wakeups
      → Lost dec k c
      → let (answer, c') = sync_check_or_reserve dec (memory_backend dec) k wakeups c in
        (answer ≡ busy) × Lost dec k c'
  unfolding sync_check_or_reserve
  check-Lost [] c all h = rw (reserve-Lost c h) (refl, h)
  check-Lost (others ∷ wakeups) c all h =
      rw (reserve-Lost c h, sync_check_or_reserve, reserve-Lost c h)
        (check-Lost wakeups (others c) all.1 (all.0 c h))

  -- A caller that asks for a lost key waits for ever, however often it is woken, as long as what
  -- the others do leaves the key lost.
  Lost-waits :
      (wakeups : List (Object K V → Object K V)) (func : Object K V → Result V × Object K V)
      (c : Object K V)
      → All Keeps wakeups
      → Lost dec k c
      → let (answer, c') = execute dec (memory_backend dec) wakeups k func c in
        (answer ≡ none) × Lost dec k c'
  unfolding execute execute_with
  Lost-waits wakeups func c all h =
      let (waits, still) = check-Lost wakeups c all h in rw (waits, execute_with) (refl, still)

  reserve_free :
      (c : Object K V)
      → find dec k c.backend.store ≡ none
      → contains dec k c.inflight ≡ false
      → reserve dec (memory_backend dec) k c ≡ (reserved, record c { inflight = k ∷ c.inflight })
  unfolding reserve reserve_with get
  reserve_free c absent free = rw (absent, get, free)

  -- An exception that passes `except Exception` by leaves the key in flight.
  abandoned-Lost :
      (func : Object K V → Result V × Object K V) (exc : Exc) (c : Object K V)
      → find dec k c.backend.store ≡ none
      → contains dec k c.inflight ≡ false
      → is_exception exc ≡ false
      → ((d : Object K V) → Lost dec k d → ((func d).0 ≡ raise exc) × Lost dec k (func d).1)
      → Lost dec k (execute dec (memory_backend dec) [] k func c).1
  unfolding execute sync_check_or_reserve execute_with finish contains
  abandoned-Lost func exc c absent free passes runs =
      let taken : Object K V = record c { inflight = k ∷ c.inflight } in
      let (raised, lost) =
        runs taken (record { in_flight = if_pos (dec k k) refl _ _; not_stored = absent }) in
      rw (reserve_free c absent free, execute_with, raised, finish, passes) lost

  -- Once `func` has ended with an exception that is no `Exception`, every later caller for its key
  -- waits for ever: however often it is woken, as long as what the others do leaves the key in
  -- flight and not stored.
  pub abandoned_waits :
      (func later : Object K V → Result V × Object K V) (exc : Exc) (c : Object K V)
      (wakeups : List (Object K V → Object K V))
      → find dec k c.backend.store ≡ none
      → contains dec k c.inflight ≡ false
      → is_exception exc ≡ false
      → ((d : Object K V) → Lost dec k d → ((func d).0 ≡ raise exc) × Lost dec k (func d).1)
      → All Keeps wakeups
      → (execute dec
          (memory_backend dec)
          wakeups
          k
          later
          (execute dec (memory_backend dec) [] k func c).1).0
        ≡ none
  abandoned_waits func later exc c wakeups absent free passes runs all =
      (Lost-waits wakeups later (execute dec (memory_backend dec) [] k func c).1 all
        (abandoned-Lost func exc c absent free passes runs)).0
