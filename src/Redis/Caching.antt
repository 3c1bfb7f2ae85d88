-- ===== src/Redis/Caching.antt =====
-- src/pysilience/cache.py over src/pysilience/cache_redis.py: `Cache.execute` with a `RedisBackend`.
use mathlib.Core.Path.{subst}
use text.Mathlib.TextEquality.{eq_iff}
use pysilience.Prelude.{
  ◌<◌, ◌≡◌, refl, sym, ap, ◌∙◌, Option, none, some, List, [], ◌∷◌, ◌⊎◌, inl, inr, arith,
}
use pysilience.Python.{Exc, Result, ok, raise}
use pysilience.Cache.Config.{CacheBackend}
use pysilience.Cache.Coordination.{
  Cache, Reservation, cached, reserved, busy, failed, reserve_with, reserve, sync_check_or_reserve,
  sync_unreserve, stored, finish, execute_with, execute,
}
use pysilience.Serializer.Protocol.{RoundTrips}
use pysilience.Redis.Client.{RedisClient, IsRedis}
use pysilience.Redis.Backend.{Platform, RedisBackend, key_of, get, put, delete, aget, aput, adelete}
use pysilience.Redis.Reads.{read, read_raw}
use pysilience.Redis.Refinement.{redis-IsMap, Written}

module _ {K V S : Type 0} (dec : Discrete K) (p : Platform K) (client : RedisClient S)
    (IsError : Exc → Type 0) (laws : IsRedis client IsError) (b : RedisBackend V S) where
  -- `RedisBackend` as a `CacheBackend`; what `clear` and `aclear` come to is passed, since their
  -- loops take as many passes as the server makes of them.
  abbrev pub redis_backend :
      (S → Result (Unit {0}) × S) → (S → Result (Unit {0}) × S) → CacheBackend K V S
  redis_backend clears aclears = record {
    get = get p b;
    put = put p b;
    delete = delete p b;
    clear = clears;
    aget = aget p b;
    aput = aput p b;
    adelete = adelete p b;
    aclear = aclears;
  }

  -- A call is answered with `v`, or it raises one of the errors of the client.
  abbrev pub IsAnsweredBy : V → Option (Result V) → Type 0
  IsAnsweredBy v answer =
      (answer ≡ some (ok v)) ⊎ ((exc : Exc) × (IsError exc × (answer ≡ some (raise exc))))

  module _ (clears aclears : S → Result (Unit {0}) × S) (given : b.sync_client ≡ some client)
      (pos : 0 < p.per_second) where
    abbrev ops : CacheBackend K V S
    ops = redis_backend clears aclears

    -- What a reservation is when the backend holds `v` for the key.
    abbrev IsCached : V → Reservation V → Type 0
    IsCached v r = (r ≡ cached v) ⊎ ((exc : Exc) × (IsError exc × (r ≡ failed exc)))

    reserve-IsCached :
        (key : K) (v : V) (c : Cache K S)
        → read p client IsError laws b key c.backend ≡ ok (some v)
        → IsCached v (reserve dec ops key c).0
    unfolding reserve reserve_with
    reserve-IsCached key v c there =
        elim ((redis-IsMap p client IsError laws b given pos).reads key c.backend) [
          | inl (exc, (is_error, raised)) ↦ inr (exc, (is_error, rw raised refl))
          | inr (reads, _) ↦ inl (rw (reads ∙ there) refl)
        ]

    check-IsCached :
        (wakeups : List (Cache K S → Cache K S)) (key : K) (v : V) (c : Cache K S)
        → read p client IsError laws b key c.backend ≡ ok (some v)
        → IsCached v (sync_check_or_reserve dec ops key wakeups c).0
    unfolding sync_check_or_reserve
    check-IsCached [] key v c there = reserve-IsCached key v c there
    check-IsCached (others ∷ wakeups) key v c there = elim (reserve-IsCached key v c there) [
      | inl hit ↦ inl (ground (arith, hit))
      | inr (exc, (is_error, broken)) ↦ inr (exc, (is_error, ground (arith, broken)))
    ]

    -- A caller for a key that the server holds a value for is answered with that value, and its
    -- callable is not called, unless the client raises one of its errors.
    pub execute-IsAnsweredBy :
        (wakeups : List (Cache K S → Cache K S)) (key : K) (v : V)
        (func : Cache K S → Result V × Cache K S) (c : Cache K S)
        → read p client IsError laws b key c.backend ≡ ok (some v)
        → IsAnsweredBy v (execute dec ops wakeups key func c).0
    unfolding execute execute_with
    execute-IsAnsweredBy wakeups key v func c there = elim (check-IsCached wakeups key v c there) [
      | inl hit ↦ inl (rw (hit, execute_with) refl)
      | inr (exc, (is_error, broken)) ↦ inr (exc, (is_error, rw (broken, execute_with) refl))
    ]

    reserve_with-cached :
        (r : Result (Option V)) (key : K) (v : V) (c : Cache K S)
        → (reserve_with dec ops r key c).0 ≡ cached v
        → (r ≡ ok (some v)) × ((reserve_with dec ops r key c).1 ≡ c)
    unfolding reserve_with
    reserve_with-cached (ok (some w)) key v c h = ground (arith, h)
    reserve_with-cached (ok none) key v c h = absurd (ground (arith, h))
    reserve_with-cached (raise exc) key v c h = absurd (ground (arith, h))

    -- A value that is found is still there after the call.
    reserve-cached :
        (key : K) (v : V) (c : Cache K S)
        → (reserve dec ops key c).0 ≡ cached v
        → read p client IsError laws b key (reserve dec ops key c).1.backend ≡ ok (some v)
    unfolding reserve
    reserve-cached key v c hit =
        let (answered, same) =
          reserve_with-cached (get p b key c.backend).0 key v
            (record c { backend = (get p b key c.backend).1 }) hit in
        elim ((redis-IsMap p client IsError laws b given pos).reads key c.backend) [
          | inl (exc, (is_error, raised)) ↦ absurd (ground (arith, raised, answered))
          | inr (reads, keeps) ↦
              ap (λ d. read p client IsError laws b key d.backend) same
              ∙ ap (read_raw p client IsError laws b) (keeps (key_of p b key))
              ∙ sym reads
              ∙ answered
        ]

    -- The backend holds `v` for the key.
    abbrev pub Holds : K → V → Cache K S → Type 0
    Holds key v c = read p client IsError laws b key c.backend ≡ ok (some v)

    -- The same of the loop, by what its first round answers.
    round-cached :
        (a : Reservation V) (others : Cache K S → Cache K S)
        (wakeups : List (Cache K S → Cache K S)) (key : K) (v : V) (c : Cache K S)
        → ((d : Cache K S)
            → (sync_check_or_reserve dec ops key wakeups d).0 ≡ cached v
            → Holds key v (sync_check_or_reserve dec ops key wakeups d).1)
        → (reserve dec ops key c).0 ≡ a
        → (sync_check_or_reserve dec ops key (others ∷ wakeups) c).0 ≡ cached v
        → Holds key v (sync_check_or_reserve dec ops key (others ∷ wakeups) c).1
    unfolding sync_check_or_reserve
    round-cached (cached w) others wakeups key v c ih e hit =
        rw (e, sync_check_or_reserve)
          (reserve-cached key v c (e ∙ (rw (e, sync_check_or_reserve) at hit)))
    round-cached reserved others wakeups key v c ih e hit = absurd (ground (arith, e, hit))
    round-cached busy others wakeups key v c ih e hit =
        rw (e, sync_check_or_reserve)
          (ih (others (reserve dec ops key c).1) (rw (e, sync_check_or_reserve) at hit))
    round-cached (failed exc) others wakeups key v c ih e hit = absurd (ground (arith, e, hit))

    check-cached :
        (wakeups : List (Cache K S → Cache K S)) (key : K) (v : V) (c : Cache K S)
        → (sync_check_or_reserve dec ops key wakeups c).0 ≡ cached v
        → Holds key v (sync_check_or_reserve dec ops key wakeups c).1
    unfolding sync_check_or_reserve
    check-cached [] key v c hit = reserve-cached key v c hit
    check-cached (others ∷ wakeups) key v c hit =
        round-cached (reserve dec ops key c).0 others wakeups key v c
          (λ d. check-cached wakeups key v d) refl hit

    stored-ok :
        (answer : Result (Unit {0})) (key : K) (v w : V) (c : Cache K S)
        → (stored dec ops answer key w c).0 ≡ ok v
        → (answer ≡ ok tt) × (w ≡ v) × ((stored dec ops answer key w c).1.backend ≡ c.backend)
    unfolding stored sync_unreserve
    stored-ok (raise exc) key v w c e = absurd (ground (arith, e))
    stored-ok (ok tt) key v w c e = (refl, ground (arith, e), refl)

    -- A value that is stored is there after the call.
    finish-ok :
        (key : K) (v : V) (result : Result V) (c : Cache K S)
        → RoundTrips b.serializer v
        → (finish dec ops key result c).0 ≡ ok v
        → Holds key v (finish dec ops key result c).1
    unfolding finish
    finish-ok key v (raise exc) c h e = absurd (ground (arith, e))
    finish-ok key v (ok w) c h e =
        let s' = (put p b key w c.config.ttl c.backend).1 in
        let (answered, same, kept) =
          stored-ok (put p b key w c.config.ttl c.backend).0 key v w (record c { backend = s' })
            e in
        let promised =
          (redis-IsMap p client IsError laws b given pos).writes key w c.config.ttl c.backend
            (subst (RoundTrips b.serializer) (sym same) h) in
        let written : Written p client IsError laws b key w c.config.ttl c.backend s' =
          rw answered at promised in
        ap (read p client IsError laws b key) kept
        ∙ written.1 key
        ∙ rw ((eq_iff (key_of p b key) (key_of p b key)).1 refl) (ap (λ x. ok (some x)) same)

    execute_with-Holds :
        (r : Reservation V) (key : K) (v : V) (func : Cache K S → Result V × Cache K S)
        (c : Cache K S)
        → RoundTrips b.serializer v
        → (r ≡ cached v → Holds key v c)
        → (execute_with dec ops r key func c).0 ≡ some (ok v)
        → Holds key v (execute_with dec ops r key func c).1
    unfolding execute_with
    execute_with-Holds (cached w) key v func c h was e = was (ground (arith, e))
    execute_with-Holds busy key v func c h was e = absurd (ground (arith, e))
    execute_with-Holds (failed exc) key v func c h was e = absurd (ground (arith, e))
    execute_with-Holds reserved key v func c h was e =
        finish-ok key v (func c).0 (func c).1 h (ground (arith, e))

    execute-Holds :
        (wakeups : List (Cache K S → Cache K S)) (key : K) (v : V)
        (func : Cache K S → Result V × Cache K S) (c : Cache K S)
        → RoundTrips b.serializer v
        → (execute dec ops wakeups key func c).0 ≡ some (ok v)
        → Holds key v (execute dec ops wakeups key func c).1
    unfolding execute
    execute-Holds wakeups key v func c h e =
        execute_with-Holds (sync_check_or_reserve dec ops key wakeups c).0 key v func
          (sync_check_or_reserve dec ops key wakeups c).1 h (check-cached wakeups key v c) e

    -- After a call that was answered with a value, by the callable or by the backend, the next caller
    -- for the key is answered with the same value without calling its own callable, if the serializer
    -- restores the value, and unless the client raises one of its errors.
    pub execute-execute :
        (wakeups wakeups' : List (Cache K S → Cache K S)) (key : K) (v : V)
        (func func' : Cache K S → Result V × Cache K S) (c : Cache K S)
        → RoundTrips b.serializer v
        → (execute dec ops wakeups key func c).0 ≡ some (ok v)
        → IsAnsweredBy v
            (execute dec ops wakeups' key func' (execute dec ops wakeups key func c).1).0
    execute-execute wakeups wakeups' key v func func' c h e =
        execute-IsAnsweredBy wakeups' key v func' (execute dec ops wakeups key func c).1
          (execute-Holds wakeups key v func c h e)
