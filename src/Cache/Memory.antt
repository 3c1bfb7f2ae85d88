-- ===== src/Cache/Memory.antt =====
-- src/pysilience/cache.py: `class MemoryBackend`, over keys with a decidable equality. `clock` is
-- what `time.monotonic` reads.
use pysilience.Prelude.{
  ℕ, ◌-◌, Bool, true, false, Option, none, some, List, [], ◌∷◌, length, leb, if◌then◌else◌,
}
use pysilience.Python.{key_error, Result, ok, raise, Clock, monotonic}
use pysilience.Cache.Config.{CacheBackend}
use pysilience.Python.Dict.{find, remove, assign, move_to_end}

-- `_CacheEntry`
pub record Entry {ℓ} (V : Type ℓ) : Type ℓ where
  pub value : V
  pub cached_at : ℕ

pub record Memory {ℓ} (K V : Type ℓ) : Type ℓ where
  pub max_size : ℕ
  pub ttl : Option ℕ
  pub store : List (K × Entry V)
  pub clock : Clock

-- `__init__`
unfoldable pub init {ℓ} : {K V : Type ℓ} → ℕ → Option ℕ → Clock → Memory K V
init max_size ttl clock = record { max_size = max_size; ttl = ttl; store = []; clock = clock }

-- `size`
abbrev pub size {ℓ} : {K V : Type ℓ} → Memory K V → ℕ
size m = length m.store

-- `_is_expired`, which reads the clock only if there is a `ttl`.
abbrev pub clock_after_check : Option ℕ → Clock → Clock
clock_after_check none c = c
clock_after_check (some t) c = monotonic c

abbrev pub is_expired {ℓ} : {V : Type ℓ} → Option ℕ → Entry V → Clock → Bool
is_expired none entry c = false
is_expired (some t) entry c = leb t ((monotonic c).now - entry.cached_at)

-- The loop `while len(self._store) >= self._max_size: self._store.popitem(last=False)`; `popitem`
-- raises `KeyError` on an empty store.
unfoldable pub evict {ℓ} : {A : Type ℓ} → ℕ → List A → Result (List A)
evict max_size [] = if leb max_size 0 then raise key_error else ok []
evict max_size (x ∷ xs) = if leb max_size (length (x ∷ xs)) then evict max_size xs else ok (x ∷ xs)

-- The entry that `put` stores, stamped by the clock.
abbrev pub stamped {ℓ} : {K V : Type ℓ} → V → Memory K V → Entry V
stamped value m = record { value = value; cached_at = (monotonic m.clock).now }

module _ {ℓ} {K V : Type ℓ} (dec : Discrete K) where
  -- `get`
  unfoldable pub get : K → Memory K V → Option V × Memory K V
  get key m = elim (find dec key m.store) [
    | none ↦ (none, m)
    | some entry ↦
        let clock = clock_after_check m.ttl m.clock in
        if is_expired m.ttl entry m.clock
        then (none, record m { store = remove dec key m.store; clock = clock })
        else (
          some entry.value,
          record m { store = move_to_end dec key entry m.store; clock = clock },
        )
  ]

  -- `put` for a key that is not there: evict, then add.
  unfoldable pub put_new : K → V → Memory K V → Result (Unit {0}) × Memory K V
  put_new key value m = elim (evict m.max_size m.store) [
    | raise err ↦ (raise err, record m { store = [] })
    | ok kept ↦ (
      ok tt,
      record m { store = assign dec key (stamped value m) kept; clock = monotonic m.clock },
    )
  ]

  -- `put`; its argument `ttl` is not used.
  unfoldable pub put : K → V → Option ℕ → Memory K V → Result (Unit {0}) × Memory K V
  put key value ttl m = elim (find dec key m.store) [
    | none ↦ put_new key value m
    | some old ↦ (
      ok tt,
      record m {
        store = assign dec key (stamped value m) (move_to_end dec key old m.store);
        clock = monotonic m.clock;
      },
    )
  ]

  -- `delete`
  unfoldable pub delete : K → Memory K V → Bool × Memory K V
  delete key m = elim (find dec key m.store) [
    | none ↦ (false, m)
    | some _ ↦ (true, record m { store = remove dec key m.store })
  ]

  -- `clear`
  unfoldable pub clear : Memory K V → Memory K V
  clear m = record m { store = [] }

  -- `aget`, `aput`, `adelete`, `aclear`
  unfoldable pub aget : K → Memory K V → Option V × Memory K V
  aget key m = get key m

  unfoldable pub aput : K → V → Option ℕ → Memory K V → Result (Unit {0}) × Memory K V
  aput key value ttl m = put key value ttl m

  unfoldable pub adelete : K → Memory K V → Bool × Memory K V
  adelete key m = delete key m

  unfoldable pub aclear : Memory K V → Memory K V
  aclear m = clear m

  -- `MemoryBackend` as a `CacheBackend`.
  abbrev pub memory_backend : CacheBackend K V (Memory K V)
  memory_backend = record {
    get = λ key m. (ok (get key m).0, (get key m).1);
    put = put;
    delete = λ key m. (ok (delete key m).0, (delete key m).1);
    clear = λ m. (ok tt, clear m);
    aget = λ key m. (ok (aget key m).0, (aget key m).1);
    aput = aput;
    adelete = λ key m. (ok (adelete key m).0, (adelete key m).1);
    aclear = λ m. (ok tt, aclear m);
  }
