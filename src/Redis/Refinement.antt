-- ===== src/Redis/Refinement.antt =====
-- src/pysilience/cache_redis.py: `RedisBackend` is a map from keys to values, as its readers see it.
use mathlib.Core.Path.{subst}
use native.Mathlib.Nat.{div-mul-le_self, lt-div-mul-add}
use pysilience.Prelude.{
  ℕ, zero, suc, ◌+◌, ◌*◌, ◌/◌, ◌≤◌, ◌<◌, ◌≡◌, refl, sym, ◌∙◌, String, Bool, Option, none, some, [],
  ◌∷◌, ◌⊎◌, if◌then◌else◌, arith, max,
}
use pysilience.Python.{Exc, Result, ok, raise, Bytes}
use pysilience.Serializer.Protocol.{RoundTrips}
use pysilience.Redis.Client.{RedisClient, IsRedis, Answers, is_there}
use pysilience.Redis.Answers.{Answers-mono, Answers-then_do}
use pysilience.Redis.Backend.{
  Platform, RedisBackend, with_client, require, require_sync, require_async, load, loaded, key_of,
  seconds_of, get_by, put_by, delete_by, get, put, delete, aget, aput, adelete,
}
use pysilience.Redis.Reads.{read, same_key, get_by-read, rewritten}

pos_of : (q c m : ℕ) → c ≤ m → m < q * c + c → 0 < q
pos_of zero c m le lt = absurd (omega arith)
pos_of (suc q) c m le lt = omega arith

module _ {K : Type 0} (p : Platform K) where
  -- `setex` is called with at least one second, with no more than the time to live, unless that is
  -- shorter than a second, and with less than a second cut off.
  abbrev pub IsSeconds : ℕ → ℕ → Type 0
  IsSeconds ttl seconds =
      (0 < seconds)
      × (seconds * p.per_second ≤ max ttl p.per_second)
      × (max ttl p.per_second < seconds * p.per_second + p.per_second)

  pub seconds_of-IsSeconds : 0 < p.per_second → (ttl : ℕ) → IsSeconds ttl (seconds_of p ttl)
  unfolding seconds_of
  seconds_of-IsSeconds is_positive ttl =
      let above = lt-div-mul-add {a = max ttl p.per_second} {b = p.per_second} is_positive in
      let below = div-mul-le_self (max ttl p.per_second) p.per_second in
      (
        pos_of (max ttl p.per_second / p.per_second) p.per_second _ (omega arith) above,
        below,
        above,
      )

module _ {K V S : Type 0} (p : Platform K) (client : RedisClient S) (IsError : Exc → Type 0)
    (laws : IsRedis client IsError) (b : RedisBackend V S) where
  -- The expiry that the server is given for a time to live: none for none, and otherwise the whole
  -- seconds of it, at least one.
  abbrev pub IsExpiry : Option ℕ → Option ℕ → Type 0
  IsExpiry none expiry = expiry ≡ none
  IsExpiry (some ttl) expiry = (seconds : ℕ) × ((expiry ≡ some seconds) × IsSeconds p ttl seconds)

  -- What a write of `v` leaves: readers of its key find `v`, all others what they found before.
  abbrev pub Written : K → V → Option ℕ → S → S → Type 0
  Written key v ttl s s' =
      IsExpiry ttl (laws.expiry (key_of p b key) s')
      × ((q : K)
          → read p client IsError laws b q s' ≡ (
              if same_key p client IsError laws b q key
              then ok (some v)
              else read p client IsError laws b q s))

  load-RoundTrips : (v : V) (raw : Bytes) → b.serializer.loads raw ≡ ok v → load b raw ≡ ok (some v)
  unfolding load loaded
  load-RoundTrips v raw e = rw e refl

  put_by-Written :
      (key : K) (v : V) (ttl : Option ℕ) (s : S)
      → 0 < p.per_second
      → RoundTrips b.serializer v
      → Answers IsError (λ _ s'. Written key v ttl s s') (put_by p b key v ttl client s)
  put_by-Written key v none s pos (raw, (dumped, restored)) =
      rw (dumped, put_by)
        (Answers-mono IsError _ _ (client.set (key_of p b key) raw s)
          (λ _ s' h. (
            h.0,
            λ q.
                rewritten p client IsError laws b key (some raw) s s' h.1 q
                ∙ rw (load-RoundTrips v raw restored) refl,
          ))
          (laws.set_law (key_of p b key) raw s))
  put_by-Written key v (some t) s pos (raw, (dumped, restored)) =
      rw (dumped, put_by)
        (Answers-mono IsError _ _ (client.setex (key_of p b key) (seconds_of p t) raw s)
          (λ _ s' h. (
            (seconds_of p t, (h.0, seconds_of-IsSeconds p pos t)),
            λ q.
                rewritten p client IsError laws b key (some raw) s s' h.1 q
                ∙ rw (load-RoundTrips v raw restored) refl,
          ))
          (laws.setex_law (key_of p b key) (seconds_of p t) raw s (seconds_of-IsSeconds p pos t).0))

  -- What a deletion leaves, and its answer: whether the key was there.
  abbrev pub Deleted : K → S → Bool → S → Type 0
  Deleted key s existed s' =
      (existed ≡ is_there (laws.view (key_of p b key) s))
      × ((q : K)
          → read p client IsError laws b q s' ≡ (
              if same_key p client IsError laws b q key
              then ok none
              else read p client IsError laws b q s))

  delete_by-Deleted :
      (key : K) (s : S) → Answers IsError (Deleted key s) (delete_by p b key client s)
  delete_by-Deleted key s =
      Answers-then_do IsError _ (Deleted key s) (client.delete (key_of p b key ∷ []) s) _
        (laws.delete_law (key_of p b key ∷ []) s)
        (λ n s' h. (
          ground (arith, h.0),
          rewritten p client IsError laws b key none s s' (λ j. ground (arith, h.1 j)),
        ))

  -- The operations are those of a map from keys to values, as `read` shows it, unless the client
  -- raises one of its errors.
  pub record IsMap (get : K → S → Result (Option V) × S)
      (put : K → V → Option ℕ → S → Result (Unit {0}) × S) (delete : K → S → Result Bool × S)
      : Type 0 where
    pub reads :
        (key : K) (s : S)
        → ((exc : Exc) × (IsError exc × ((get key s).0 ≡ raise exc)))
          ⊎ (((get key s).0 ≡ read p client IsError laws b key s)
              × ((j : String) → laws.view j (get key s).1 ≡ laws.view j s))
    pub writes :
        (key : K) (v : V) (ttl : Option ℕ) (s : S)
        → RoundTrips b.serializer v
        → Answers IsError (λ _ s'. Written key v ttl s s') (put key v ttl s)
    pub refuses :
        (key : K) (v : V) (ttl : Option ℕ) (s : S) (exc : Exc)
        → b.serializer.dumps v ≡ raise exc
        → put key v ttl s ≡ (raise exc, s)
    pub deletes : (key : K) (s : S) → Answers IsError (Deleted key s) (delete key s)

  by-IsMap :
      0 < p.per_second
      → IsMap
          (λ key. get_by p b key client)
          (λ key v ttl. put_by p b key v ttl client)
          (λ key. delete_by p b key client)
  by-IsMap pos = record {
    reads = get_by-read p client IsError laws b;
    writes = λ key v ttl s. put_by-Written key v ttl s pos;
    refuses = λ key v ttl s exc refused. rw (refused, put_by) refl;
    deletes = delete_by-Deleted;
  }

  -- With a synchronous client, `get`, `put` and `delete` are the operations of a map. `get` gives what
  -- the entry of its key reads as. `put` of a value that the serializer restores makes readers of
  -- its key find the value; the entry gets no expiry without a `ttl`, and otherwise one of the whole
  -- seconds of `ttl`, but of at least one. `put` of a value that the serializer refuses raises its
  -- exception and writes nothing. `delete` removes its entry and answers whether it was there. All
  -- other entries stay. Each operation may instead raise an error of the client.
  pub redis-IsMap :
      b.sync_client ≡ some client → 0 < p.per_second → IsMap (get p b) (put p b) (delete p b)
  unfolding get put delete require_sync
  redis-IsMap given pos =
      subst
        (λ c.
          IsMap (λ key. with_client (require c) (get_by p b key))
            (λ key v ttl. with_client (require c) (put_by p b key v ttl))
            (λ key. with_client (require c) (delete_by p b key)))
        (sym given) (by-IsMap pos)

  -- The same of the asynchronous methods and client.
  pub async-IsMap :
      b.async_client ≡ some client → 0 < p.per_second → IsMap (aget p b) (aput p b) (adelete p b)
  unfolding aget aput adelete require_async
  async-IsMap given pos =
      subst
        (λ c.
          IsMap (λ key. with_client (require c) (get_by p b key))
            (λ key v ttl. with_client (require c) (put_by p b key v ttl))
            (λ key. with_client (require c) (delete_by p b key)))
        (sym given) (by-IsMap pos)
