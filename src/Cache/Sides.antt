-- ===== src/Cache/Sides.antt =====
-- src/pysilience/cache.py: the two sides of `class Cache` over a `MemoryBackend`.
use pysilience.Prelude.{
  ◌≡◌, refl, ap, ◌∙◌, Option, none, some, List, [], ◌∷◌, map, Bool-cases, inl, inr,
}
use pysilience.Python.{is_exception, Result, ok, raise}
use pysilience.Cache.Config.{CacheBackend}
use pysilience.Cache.Coordination.{
  Cache, Reservation, cached, reserved, busy, failed, contains, reserve_with, reserve,
  sync_check_or_reserve, sync_unreserve, stored, finish, execute_with, execute,
}
use pysilience.Cache.Async.{
  mark, mark_on_miss, memory_round, memory_loop, async_unreserve, async_stored, async_finish,
  execute_async_with, execute_async_memory,
}

module _ {ℓ} {K B : Type ℓ} where
  -- The object with the keys in flight of the two sides exchanged.
  abbrev pub exchange : Cache K B → Cache K B
  exchange c = record c { inflight = c.async_inflight; async_inflight = c.inflight }

  abbrev pub exchanged {κ} : {A : Type κ} → A × Cache K B → A × Cache K B
  exchanged (a, c) = (a, exchange c)

  -- What others do, or what a call does, seen from the other side.
  abbrev pub seen : (Cache K B → Cache K B) → Cache K B → Cache K B
  seen others c = exchange (others (exchange c))

  abbrev pub seen_call :
      {V : Type ℓ} → (Cache K B → Result V × Cache K B) → Cache K B → Result V × Cache K B
  seen_call func c = exchanged (func (exchange c))

module _ {ℓ} {K V B : Type ℓ} (dec : Discrete K) (ops : CacheBackend K V B) where
  mark-reserve :
      (r : Result (Option V)) (key : K) (c : Cache K B)
      → mark_on_miss dec ops r key c ≡ exchanged (reserve_with dec ops r key (exchange c))
  unfolding mark_on_miss mark reserve_with
  mark-reserve (raise err) key c = refl
  mark-reserve (ok (some value)) key c = refl
  mark-reserve (ok none) key c = elim (Bool-cases (contains dec key c.async_inflight)) [
    | inl held ↦ rw held refl
    | inr free ↦ rw free refl
  ]

  round-reserve :
      (key : K) (c : Cache K B)
      → memory_round dec ops key c ≡ exchanged (reserve dec ops key (exchange c))
  unfolding memory_round reserve
  round-reserve key c =
      mark-reserve (ops.get key c.backend).0 key (record c { backend = (ops.get key c.backend).1 })

  -- The loop after one round.
  abbrev after_round :
      K
      → (Cache K B → Cache K B)
      → List (Cache K B → Cache K B)
      → Reservation V × Cache K B
      → Reservation V × Cache K B
  after_round key others wakeups (answer, c) = elim answer [
    | busy ↦ memory_loop dec ops key wakeups (others c)
    | cached value ↦ (cached value, c)
    | reserved ↦ (reserved, c)
    | failed err ↦ (failed err, c)
  ]

  loop-check :
      (key : K) (wakeups : List (Cache K B → Cache K B)) (c : Cache K B)
      → memory_loop dec ops key wakeups c
        ≡ exchanged (sync_check_or_reserve dec ops key (map seen wakeups) (exchange c))
  unfolding memory_loop sync_check_or_reserve
  loop-check key [] c = round-reserve key c
  loop-check key (others ∷ wakeups) c =
      ap (after_round key others wakeups) (round-reserve key c)
      ∙ go (reserve dec ops key (exchange c)) (λ d. loop-check key wakeups d)
    where
      go :
          (p : Reservation V × Cache K B)
          → ((d : Cache K B)
              → memory_loop dec ops key wakeups d
                ≡ exchanged (sync_check_or_reserve dec ops key (map seen wakeups) (exchange d)))
          → after_round key others wakeups (exchanged p)
            ≡ exchanged (elim p.0 [
              | busy ↦ sync_check_or_reserve dec ops key (map seen wakeups) (seen others p.1)
              | cached value ↦ (cached value, p.1)
              | reserved ↦ (reserved, p.1)
              | failed err ↦ (failed err, p.1)
            ])
      go (cached value, d) later = refl
      go (reserved, d) later = refl
      go (failed err, d) later = refl
      go (busy, d) later = later (others (exchange d))

  stored-sides :
      (r : Result (Unit {0})) (key : K) (value : V) (c : Cache K B)
      → async_stored dec ops r key value c ≡ exchanged (stored dec ops r key value (exchange c))
  unfolding async_stored async_unreserve stored sync_unreserve
  stored-sides (raise err) key value c = refl
  stored-sides (ok done) key value c = refl

  finish-sides :
      (key : K) (result : Result V) (c : Cache K B)
      → async_finish dec ops ops.put (λ d. d) key result c
        ≡ exchanged (finish dec ops key result (exchange c))
  unfolding async_finish finish async_unreserve sync_unreserve
  finish-sides key (ok value) c =
      let (answer, b) = ops.put key value c.config.ttl c.backend in
      stored-sides answer key value (record c { backend = b })
  finish-sides key (raise exc) c = elim (Bool-cases (is_exception exc)) [
    | inl caught ↦ rw caught refl
    | inr passes ↦ rw passes refl
  ]

  answered-sides :
      (p : Reservation V × Cache K B) (key : K) (factory : Cache K B → Result V × Cache K B)
      → execute_async_with dec ops ops.put (λ d. d) p.0 key factory (exchange p.1)
        ≡ exchanged (execute_with dec ops p.0 key (seen_call factory) p.1)
  unfolding execute_async_with execute_with
  answered-sides (cached value, c) key factory = refl
  answered-sides (busy, c) key factory = refl
  answered-sides (failed err, c) key factory = refl
  answered-sides (reserved, c) key factory =
      let (result, after) = factory (exchange c) in
      ap (λ (q : Result V × Cache K B). (some q.0, q.1)) (finish-sides key result after)

  -- Over a `MemoryBackend`, `execute_async` does to the keys in flight of the asynchronous side,
  -- to the store and to the listeners exactly what `execute` does on the synchronous side, with the
  -- same outcome, whatever others do while the caller waits and while the call runs.
  pub execute_async-execute :
      (wakeups : List (Cache K B → Cache K B)) (key : K)
      (factory : Cache K B → Result V × Cache K B) (c : Cache K B)
      → execute_async_memory dec ops wakeups key factory c
        ≡ exchanged (execute dec ops (map seen wakeups) key (seen_call factory) (exchange c))
  unfolding execute_async_memory execute
  execute_async-execute wakeups key factory c = rw (loop-check key wakeups c) (
      answered-sides (sync_check_or_reserve dec ops key (map seen wakeups) (exchange c)) key
        factory)
