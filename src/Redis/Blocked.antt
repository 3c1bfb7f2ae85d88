-- ===== src/Redis/Blocked.antt =====
-- src/pysilience/cache.py over src/pysilience/cache_redis.py: a value that the serializer does not
-- take leaves its key in flight.
use pysilience.Prelude.{
  ◌<◌, ◌≡◌, refl, ap, ◌∙◌, true, false, Option, none, some, List, [], ◌∷◌, ◌⊎◌, inl, inr, All,
}
use mathlib.Core.Logic.{if_pos}
use pysilience.Python.{Exc, Result, ok, raise}
use pysilience.Cache.Config.{CacheBackend}
use pysilience.Cache.Coordination.{
  Cache, Reservation, reserved, busy, failed, contains, reserve_with, reserve,
  sync_check_or_reserve, stored, finish, execute_with, execute,
}
use pysilience.Redis.Client.{RedisClient, IsRedis}
use pysilience.Redis.Backend.{Platform, RedisBackend, key_of, get}
use pysilience.Redis.Reads.{read, read_raw}
use pysilience.Redis.Refinement.{redis-IsMap}
use pysilience.Redis.Caching.{redis_backend}

module _ {K V S : Type 0} (dec : Discrete K) (p : Platform K) (client : RedisClient S)
    (IsError : Exc → Type 0) (laws : IsRedis client IsError) (b : RedisBackend V S)
    (clears aclears : S → Result (Unit {0}) × S) (given : b.sync_client ≡ some client)
    (pos : 0 < p.per_second) where
  abbrev ops : CacheBackend K V S
  ops = redis_backend dec p client IsError laws b clears aclears

  -- The key is in flight, and the server holds no entry for it.
  pub record IsStuck (key : K) (c : Cache K S) : Type 0 where
    pub in_flight : contains dec key c.inflight ≡ true
    pub missing : read p client IsError laws b key c.backend ≡ ok none

  -- What others do leaves the key stuck.
  abbrev pub KeepsStuck : K → (Cache K S → Cache K S) → Type 0
  KeepsStuck key others = (d : Cache K S) → IsStuck key d → IsStuck key (others d)

  abbrev Fails : Reservation V → Type 0
  Fails r = (exc : Exc) × (IsError exc × (r ≡ failed exc))

  -- A lookup of a key without an entry: it is a miss that keeps the reading, or the client raises.
  reserve-miss :
      (key : K) (c : Cache K S)
      → read p client IsError laws b key c.backend ≡ ok none
      → Fails (reserve dec ops key c).0
        ⊎ ((d : S) × ((reserve dec ops key c
                ≡ reserve_with dec ops (ok none) key (record c { backend = d }))
              × (read p client IsError laws b key d ≡ ok none)))
  unfolding reserve reserve_with
  reserve-miss key c missing =
      elim ((redis-IsMap p client IsError laws b given pos).reads key c.backend) [
        | inl (exc, (is_error, raised)) ↦ inl (exc, (is_error, rw raised refl))
        | inr (reads, keeps) ↦ inr (
          (get p b key c.backend).1,
          (
            rw (reads ∙ missing) refl,
            ap (read_raw p client IsError laws b) (keeps (key_of p b key)) ∙ missing,
          ),
        )
      ]

  reserve-IsStuck :
      (key : K) (c : Cache K S)
      → IsStuck key c
      → Fails (reserve dec ops key c).0
        ⊎ (((reserve dec ops key c).0 ≡ busy) × IsStuck key (reserve dec ops key c).1)
  unfolding reserve_with
  reserve-IsStuck key c h = elim (reserve-miss key c h.missing) [
    | inl fails ↦ inl fails
    | inr (d, (same, missing)) ↦ inr (
      rw same (rw h.in_flight refl),
      rw same (rw h.in_flight (record { in_flight = h.in_flight; missing = missing })),
    )
  ]

  -- The caller still waits, or the client raised one of its errors.
  abbrev pub Waits : Option (Result V) → Type 0
  Waits answer = (answer ≡ none) ⊎ ((exc : Exc) × (IsError exc × (answer ≡ some (raise exc))))

  check-IsStuck :
      (wakeups : List (Cache K S → Cache K S)) (key : K) (c : Cache K S)
      → All (KeepsStuck key) wakeups
      → IsStuck key c
      → Fails (sync_check_or_reserve dec ops key wakeups c).0
        ⊎ ((sync_check_or_reserve dec ops key wakeups c).0 ≡ busy)
  unfolding sync_check_or_reserve
  check-IsStuck [] key c all h = elim (reserve-IsStuck key c h) [
    | inl fails ↦ inl fails
    | inr (waits, _) ↦ inr waits
  ]
  check-IsStuck (others ∷ wakeups) key c all h = elim (reserve-IsStuck key c h) [
    | inl (exc, (is_error, broken)) ↦ inl (exc, (is_error, rw (broken, sync_check_or_reserve) refl))
    | inr (waits, still) ↦
        rw (waits, sync_check_or_reserve)
          (check-IsStuck wakeups key (others (reserve dec ops key c).1) all.1 (all.0 _ still))
  ]

  stuck-Waits :
      (wakeups : List (Cache K S → Cache K S)) (key : K) (func : Cache K S → Result V × Cache K S)
      (c : Cache K S)
      → All (KeepsStuck key) wakeups
      → IsStuck key c
      → Waits (execute dec ops wakeups key func c).0
  unfolding execute execute_with
  stuck-Waits wakeups key func c all h = elim (check-IsStuck wakeups key c all h) [
    | inl (exc, (is_error, broken)) ↦ inr (exc, (is_error, rw (broken, execute_with) refl))
    | inr waits ↦ inl (rw (waits, execute_with) refl)
  ]

  finish-IsStuck :
      (key : K) (v : V) (exc : Exc) (c : Cache K S)
      → b.serializer.dumps v ≡ raise exc
      → IsStuck key c
      → ((finish dec ops key (ok v) c).0 ≡ raise exc) × IsStuck key (finish dec ops key (ok v) c).1
  unfolding finish stored
  finish-IsStuck key v exc c refused h =
      let same =
        (redis-IsMap p client IsError laws b given pos).refuses key v c.config.ttl c.backend exc
          refused in
      (rw same refl, rw same (record { in_flight = h.in_flight; missing = h.missing }))

  -- The first caller for a key that is not there and not in flight, with a callable that gives a
  -- value which the serializer does not take.
  execute-IsStuck :
      (key : K) (v : V) (exc : Exc) (func : Cache K S → Result V × Cache K S) (c : Cache K S)
      → b.serializer.dumps v ≡ raise exc
      → ((d : Cache K S) → ((func d).0 ≡ ok v) × (IsStuck key d → IsStuck key (func d).1))
      → contains dec key c.inflight ≡ false
      → read p client IsError laws b key c.backend ≡ ok none
      → ((err : Exc) × (IsError err × ((execute dec ops [] key func c).0 ≡ some (raise err))))
        ⊎ (((execute dec ops [] key func c).0 ≡ some (raise exc))
            × IsStuck key (execute dec ops [] key func c).1)
  unfolding execute sync_check_or_reserve reserve_with execute_with contains
  execute-IsStuck key v exc func c refused gives free missing = elim (reserve-miss key c missing) [
    | inl (err, (is_error, broken)) ↦ inl (err, (is_error, rw (broken, execute_with) refl))
    | inr (d, (same, still)) ↦
        let taken : Cache K S = record c { backend = d; inflight = key ∷ c.inflight } in
        let stuck : IsStuck key taken = record {
          in_flight = if_pos (dec key key) refl _ _;
          missing = still;
        } in
        let done = finish-IsStuck key v exc (func taken).1 refused ((gives taken).1 stuck) in
        let reserved_it : reserve dec ops key c ≡ (reserved, taken) = same ∙ rw free refl in
        inr (rw (reserved_it, execute_with, (gives taken).0) (ap some done.0, done.1))
  ]

  -- If the callable gives a value that the serializer raises for, the caller gets that exception, and
  -- the key stays in flight: every later caller for it waits, however often it is woken, as long as
  -- what the others do leaves the key in flight and without an entry. Each may instead get an error
  -- of the client.
  pub unserialisable_blocks :
      (key : K) (v : V) (exc : Exc) (func : Cache K S → Result V × Cache K S) (c : Cache K S)
      → b.serializer.dumps v ≡ raise exc
      → ((d : Cache K S) → ((func d).0 ≡ ok v) × (IsStuck key d → IsStuck key (func d).1))
      → contains dec key c.inflight ≡ false
      → read p client IsError laws b key c.backend ≡ ok none
      → ((err : Exc) × (IsError err × ((execute dec ops [] key func c).0 ≡ some (raise err))))
        ⊎ (((execute dec ops [] key func c).0 ≡ some (raise exc))
            × ((wakeups : List (Cache K S → Cache K S)) (func' : Cache K S → Result V × Cache K S)
                → All (KeepsStuck key) wakeups
                → Waits (execute dec ops wakeups key func' (execute dec ops [] key func c).1).0))
  unserialisable_blocks key v exc func c refused gives free missing =
      elim (execute-IsStuck key v exc func c refused gives free missing) [
        | inl fails ↦ inl fails
        | inr (raised, stuck) ↦ inr (
          raised,
          λ wakeups func' all.
              stuck-Waits wakeups key func' (execute dec ops [] key func c).1 all stuck,
        )
      ]
