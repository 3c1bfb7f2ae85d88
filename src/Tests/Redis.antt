-- ===== src/Tests/Redis.antt =====
-- src/pysilience/cache_redis.py at concrete inputs, over a server of two keys and with a serializer
-- that does not take 0.
use native.Mathlib.Decide.{ℕ_discrete}
use pysilience.Prelude.{
  ℕ, ◌≡◌, refl, false, Option, none, some, List, [], ◌∷◌, ◌⊎◌, All, if◌then◌else◌, arith, ◌==◌,
}
use pysilience.Python.{
  Exc, is_instance, value_error, type_error, Result, ok, raise, Bytes, encode, same_bytes,
}
use pysilience.Cache.Config.{CacheBackend}
use pysilience.Cache.Coordination.{
  Cache, init, contains, discard, reserve_with, reserve, sync_check_or_reserve, sync_unreserve,
  stored, finish, execute_with, execute,
}
use pysilience.Serializer.Protocol.{CacheSerializer, RoundTrips}
use pysilience.Redis.Backend.{
  Platform, RedisBackend, require_sync, require_async, loaded, load, serialise_key, key_of,
  seconds_of, get, put, delete, pattern_of, clear_round, clear_loop, clear,
}
use pysilience.Redis.Reads.{read}
use pysilience.Redis.Refinement.{IsMap, redis-IsMap}
use pysilience.Redis.Clear.{IsDone, clear-IsDone}
use pysilience.Redis.Caching.{redis_backend, IsAnsweredBy, execute-execute}
use pysilience.Redis.Blocked.{IsStuck, unserialisable_blocks}
use pysilience.Tests.Server.{Server, client, IsError, server_laws}

program : Unit {0}
unfolding is_instance init contains discard reserve_with reserve sync_check_or_reserve
    sync_unreserve stored finish execute_with execute require_sync require_async loaded load
    serialise_key key_of seconds_of get put delete clear_round clear_loop clear server_laws
    ℕ_discrete
program = tt

abbrev read_one : Bytes → Result ℕ
read_one (n ∷ []) = ok n
read_one _ = raise value_error

abbrev small : CacheSerializer ℕ
small = record { dumps = λ n. if n == 0 then raise type_error else ok (n ∷ []); loads = read_one }

abbrev platform : Platform ℕ
platform = record {
  repr = λ n. if n == 1 then "1" else "2";
  sha256_hex = λ data_. if same_bytes data_ (encode "1") then "1" else "2";
  per_second = 10;
}

abbrev backend : RedisBackend ℕ Server
backend = record {
  sync_client = some client;
  async_client = none;
  prefix = "pysilience:";
  serializer = small;
}

abbrev empty : Server
empty _ = none

abbrev one_entry : Server
one_entry = (put platform backend 1 7 (some 25) empty).1

get_entry : (get platform backend 1 one_entry).0 ≡ ok (some 7)
unfolding program
get_entry = refl

get_other : (get platform backend 2 one_entry).0 ≡ ok none
unfolding program
get_other = refl

clear_entry : clear 1 backend one_entry ≡ none
unfolding program
clear_entry = refl

seconds_short : seconds_of platform 3 ≡ 1
unfolding program
seconds_short = refl

seconds_cut : seconds_of platform 29 ≡ 2
unfolding program
seconds_cut = refl

abbrev no_clear : Server → Result (Unit {0}) × Server
no_clear s = (ok tt, s)

abbrev cache : Cache ℕ Server
cache = init (record { max_size = 4; ttl = some 25 }) none empty

abbrev ops : CacheBackend ℕ ℕ Server
ops = redis_backend ℕ_discrete platform client IsError server_laws backend no_clear no_clear

abbrev gives : ℕ → Cache ℕ Server → Result ℕ × Cache ℕ Server
gives n c = (ok n, c)

redis-IsMap_example :
    IsMap platform client IsError server_laws backend
      (get platform backend)
      (put platform backend)
      (delete platform backend)
redis-IsMap_example = redis-IsMap platform client IsError server_laws backend refl (omega arith)

-- The two keys of the server are on two pages.
clear-IsDone_example :
    IsDone client IsError server_laws (pattern_of backend) one_entry (clear 2 backend one_entry)
unfolding server_laws
clear-IsDone_example =
    clear-IsDone client IsError server_laws backend 2 one_entry refl (omega arith)

seven-RoundTrips : RoundTrips small 7
seven-RoundTrips = (7 ∷ [], (refl, refl))

computes_seven : (execute ℕ_discrete ops [] 1 (gives 7) cache).0 ≡ some (ok 7)
unfolding program
computes_seven = refl

execute-execute_example :
    IsAnsweredBy ℕ_discrete platform client IsError server_laws backend 7
      (execute ℕ_discrete ops [] 1 (gives 8) (execute ℕ_discrete ops [] 1 (gives 7) cache).1).0
execute-execute_example =
    execute-execute ℕ_discrete platform client IsError server_laws backend no_clear no_clear refl
      (omega arith) [] [] 1 7 (gives 7) (gives 8) cache seven-RoundTrips computes_seven

zero_refused : small.dumps 0 ≡ raise type_error
zero_refused = refl

abbrev Stuck : Cache ℕ Server → Type 0
Stuck =
    IsStuck ℕ_discrete platform client IsError server_laws backend no_clear no_clear refl
      (omega arith) 1

abbrev KeptStuck : (Cache ℕ Server → Cache ℕ Server) → Type 0
KeptStuck others = (d : Cache ℕ Server) → Stuck d → Stuck (others d)

abbrev StillWaits : Option (Result ℕ) → Type 0
StillWaits answer = (answer ≡ none) ⊎ ((exc : Exc) × (IsError exc × (answer ≡ some (raise exc))))

gives_zero : (d : Cache ℕ Server) → ((gives 0 d).0 ≡ ok 0) × (Stuck d → Stuck (gives 0 d).1)
gives_zero d = (refl, λ h. h)

not_there : read platform client IsError server_laws backend 1 cache.backend ≡ ok none
unfolding program
not_there = refl

not_in_flight : contains ℕ_discrete 1 cache.inflight ≡ false
unfolding program
not_in_flight = refl

unserialisable_blocks_example :
    let first = execute ℕ_discrete ops [] 1 (gives 0) cache in
    ((err : Exc) × (IsError err × (first.0 ≡ some (raise err))))
    ⊎ ((first.0 ≡ some (raise type_error))
        × ((wakeups : List (Cache ℕ Server → Cache ℕ Server))
              (func : Cache ℕ Server → Result ℕ × Cache ℕ Server)
            → All KeptStuck wakeups
            → StillWaits (execute ℕ_discrete ops wakeups 1 func first.1).0))
unserialisable_blocks_example =
    unserialisable_blocks ℕ_discrete platform client IsError server_laws backend no_clear no_clear
      refl (omega arith) 1 0 type_error (gives 0) cache zero_refused gives_zero not_in_flight
      not_there
