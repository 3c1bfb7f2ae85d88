-- ===== src/Redis/Backend.antt =====
-- src/pysilience/cache_redis.py: `RedisBackend`. `Platform` is what it takes from Python: `repr` of a
-- key, the digest `hashlib.sha256(...).hexdigest()`, and how many ticks of the time a second has.
use Prim.Native.String.{◌++◌ as ◌followed_by◌}
use pysilience.Prelude.{
  ℕ, zero, suc, ◌/◌, String, Bool, Option, none, some, List, [], ◌∷◌, max, ltb, ◌==◌, if◌then◌else◌,
}
use pysilience.Python.{
  value_error, value_error_class, runtime_error, type_error, is_instance, Result, ok, raise, Bytes,
  encode,
}
use pysilience.Serializer.Protocol.{CacheSerializer}
use pysilience.Redis.Client.{RedisClient}

pub record Platform (K : Type 0) : Type 0 where
  pub repr : K → String
  pub sha256_hex : Bytes → String
  pub per_second : ℕ

-- The fields `_sync`, `_async`, `_prefix` and `_serializer`.
pub record RedisBackend (V S : Type 0) : Type 0 where
  pub sync_client : Option (RedisClient S)
  pub async_client : Option (RedisClient S)
  pub prefix : String
  pub serializer : CacheSerializer V

-- The argument `serializer`: not passed, passed, or no `CacheSerializer`.
pub data Passed (V : Type 0) : Type 0 where
  not_passed : Passed V
  passed : CacheSerializer V → Passed V
  no_serializer : Passed V

-- `__init__`; `default` is the `JsonSerializer()` that it makes.
abbrev with_serializer :
    {V S : Type 0}
    → Option (RedisClient S)
    → Option (RedisClient S)
    → String
    → Passed V
    → CacheSerializer V
    → Result (RedisBackend V S)
with_serializer sync async prefix no_serializer default = raise type_error
with_serializer sync async prefix not_passed default =
    ok (record { sync_client = sync; async_client = async; prefix = prefix; serializer = default })
with_serializer sync async prefix (passed s) default =
    ok (record { sync_client = sync; async_client = async; prefix = prefix; serializer = s })

unfoldable pub init :
    {V S : Type 0}
    → Option (RedisClient S)
    → Option (RedisClient S)
    → String
    → Passed V
    → CacheSerializer V
    → Result (RedisBackend V S)
init none none prefix arg default = raise value_error
init none (some async) prefix arg default = with_serializer none (some async) prefix arg default
init (some sync) async prefix arg default = with_serializer (some sync) async prefix arg default

-- `_require_sync` and `_require_async`
abbrev pub require : {S : Type 0} → Option (RedisClient S) → Result (RedisClient S)
require none = raise runtime_error
require (some client) = ok client

unfoldable pub require_sync : {V S : Type 0} → RedisBackend V S → Result (RedisClient S)
require_sync b = require b.sync_client

unfoldable pub require_async : {V S : Type 0} → RedisBackend V S → Result (RedisClient S)
require_async b = require b.async_client

-- `_load`, where `none` is `_MISS`; the warning is not modelled.
unfoldable pub loaded : {V : Type 0} → Result V → Result (Option V)
loaded (ok v) = ok (some v)
loaded (raise exc) = if is_instance exc (value_error_class ∷ []) then ok none else raise exc

unfoldable pub load : {V S : Type 0} → RedisBackend V S → Bytes → Result (Option V)
load b raw = loaded (b.serializer.loads raw)

-- `client = self._require_...()` and what follows.
abbrev pub with_client :
    {S A : Type 0} → Result (RedisClient S) → (RedisClient S → S → Result A × S) → S → Result A × S
with_client (ok client) f s = f client s
with_client (raise exc) f s = (raise exc, s)

-- What follows the answer of a call.
abbrev pub then_do : {S A B : Type 0} → Result A × S → (A → S → Result B × S) → Result B × S
then_do (ok a, s) f = f a s
then_do (raise exc, s) f = (raise exc, s)

module _ {K : Type 0} (p : Platform K) where
  -- `_serialise_key`
  unfoldable pub serialise_key : K → String → String
  serialise_key key prefix = prefix followed_by p.sha256_hex (encode (p.repr key))

  -- `int(max(ttl, 1))`, for a `ttl` in ticks.
  unfoldable pub seconds_of : ℕ → ℕ
  seconds_of ttl = max ttl p.per_second / p.per_second

module _ {K V S : Type 0} (p : Platform K) where
  -- `_key`
  unfoldable pub key_of : RedisBackend V S → K → String
  key_of b key = serialise_key p key b.prefix

  -- `return _MISS` or `return self._load(raw, key)`
  abbrev pub found : RedisBackend V S → Option Bytes → S → Result (Option V) × S
  found b none s = (ok none, s)
  found b (some raw) s = (load b raw, s)

  -- The bodies of the methods, which both sides share but for the client that they call.
  abbrev pub get_by : RedisBackend V S → K → RedisClient S → S → Result (Option V) × S
  get_by b key client s = then_do (client.get (key_of b key) s) (found b)

  abbrev pub put_by :
      RedisBackend V S → K → V → Option ℕ → RedisClient S → S → Result (Unit {0}) × S
  put_by b key value ttl client s = elim (b.serializer.dumps value) [
    | raise exc ↦ (raise exc, s)
    | ok data_ ↦ elim ttl [
      | none ↦ client.set (key_of b key) data_ s
      | some t ↦ client.setex (key_of b key) (seconds_of p t) data_ s
    ]
  ]

  abbrev pub delete_by : RedisBackend V S → K → RedisClient S → S → Result Bool × S
  delete_by b key client s =
      then_do (client.delete (key_of b key ∷ []) s) (λ n s'. (ok (ltb 0 n), s'))

  -- `get`, `put` and `delete`
  unfoldable pub get : RedisBackend V S → K → S → Result (Option V) × S
  get b key = with_client (require_sync b) (get_by b key)

  unfoldable pub put : RedisBackend V S → K → V → Option ℕ → S → Result (Unit {0}) × S
  put b key value ttl = with_client (require_sync b) (put_by b key value ttl)

  unfoldable pub delete : RedisBackend V S → K → S → Result Bool × S
  delete b key = with_client (require_sync b) (delete_by b key)

  -- `aget`, `aput` and `adelete`
  unfoldable pub aget : RedisBackend V S → K → S → Result (Option V) × S
  aget b key = with_client (require_async b) (get_by b key)

  unfoldable pub aput : RedisBackend V S → K → V → Option ℕ → S → Result (Unit {0}) × S
  aput b key value ttl = with_client (require_async b) (put_by b key value ttl)

  unfoldable pub adelete : RedisBackend V S → K → S → Result Bool × S
  adelete b key = with_client (require_async b) (delete_by b key)

-- `if keys: client.delete(*keys)`
abbrev pub delete_page : {S : Type 0} → RedisClient S → List String → S → Result (Unit {0}) × S
delete_page client [] s = (ok tt, s)
delete_page client (k ∷ keys) s = then_do (client.delete (k ∷ keys) s) (λ _ s'. (ok tt, s'))

-- One pass of the loop of `clear`, which answers the next cursor.
unfoldable pub clear_round : {S : Type 0} → RedisClient S → String → ℕ → S → Result ℕ × S
clear_round client pattern cursor s =
    then_do (client.scan cursor pattern s)
      (λ page s'. then_do (delete_page client page.1 s') (λ _ s''. (ok page.0, s'')))

-- The loop; `none` is a loop that has not ended within `fuel` passes.
unfoldable pub clear_loop :
    {S : Type 0} → RedisClient S → String → ℕ → ℕ → S → Option (Result (Unit {0}) × S)
clear_loop client pattern zero cursor s = none
clear_loop client pattern (suc fuel) cursor s =
    let (answer, s') = clear_round client pattern cursor s in
    elim answer [
      | raise exc ↦ some (raise exc, s')
      | ok next ↦
          let rest = clear_loop client pattern fuel next s' in
          if next == 0 then some (ok tt, s') else rest
    ]

module _ {V S : Type 0} where
  -- `self._prefix + "*"`
  abbrev pub pattern_of : RedisBackend V S → String
  pattern_of b = b.prefix followed_by "*"

  abbrev clear_by :
      ℕ → RedisBackend V S → Result (RedisClient S) → S → Option (Result (Unit {0}) × S)
  clear_by fuel b (raise exc) s = some (raise exc, s)
  clear_by fuel b (ok client) s = clear_loop client (pattern_of b) fuel 0 s

  -- `clear` and `aclear`
  unfoldable pub clear : ℕ → RedisBackend V S → S → Option (Result (Unit {0}) × S)
  clear fuel b s = clear_by fuel b (require_sync b) s

  unfoldable pub aclear : ℕ → RedisBackend V S → S → Option (Result (Unit {0}) × S)
  aclear fuel b s = clear_by fuel b (require_async b) s
