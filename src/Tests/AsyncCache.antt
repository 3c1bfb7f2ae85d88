-- ===== src/Tests/AsyncCache.antt =====
-- The asynchronous side of src/pysilience/cache.py at concrete inputs.
use native.Mathlib.Decide.{ℕ_discrete}
use pysilience.Prelude.{ℕ, true, ◌≡◌, refl, some, [], ◌∷◌, All, map}
use pysilience.Python.{Result, ok}
use pysilience.Cache.Memory.{Memory, memory_backend}
use pysilience.Cache.Keys.{Once}
use pysilience.Cache.Coordination.{Cache, contains, execute}
use pysilience.Cache.Async.{mark, execute_async_memory}
use pysilience.Cache.Sides.{exchange, exchanged, seen, seen_call, execute_async-execute}
use pysilience.Cache.Marks.{System, marked, Reach, here, next, reachable-IsMarked}
use pysilience.Tests.Data.{clock}

abbrev Object : Type 0
Object = Cache ℕ (Memory ℕ ℕ)

abbrev object : Object
object = record {
  config = record { max_size = 2; ttl = some 50 };
  name = "users";
  backend = record { max_size = 2; ttl = some 50; store = []; clock = clock };
  inflight = [];
  async_inflight = [];
  events = [];
}

abbrev working : Object → Result ℕ × Object
working c = (ok 30, c)

execute_async-execute_example :
    execute_async_memory ℕ_discrete (memory_backend ℕ_discrete) ((λ c. c) ∷ []) 3 working object
    ≡ exchanged (
        execute ℕ_discrete
          (memory_backend ℕ_discrete)
          (map seen ((λ c. c) ∷ []))
          3
          (seen_call working)
          (exchange object))
execute_async-execute_example =
    execute_async-execute ℕ_discrete (memory_backend ℕ_discrete) ((λ c. c) ∷ []) 3 working object

abbrev computing_three : System {K = ℕ} {V = ℕ} ℕ_discrete (memory_backend ℕ_discrete)
computing_three = record { cache = record object { async_inflight = 3 ∷ [] }; computing = 3 ∷ [] }

computing_three-Reach :
    Reach ℕ_discrete
      (memory_backend ℕ_discrete)
      (record { cache = object; computing = [] })
      computing_three
unfolding mark contains
computing_three-Reach = next here (marked 3 refl)

reachable-IsMarked_example :
    Once ℕ_discrete (3 ∷ [])
    × All (λ k. contains ℕ_discrete k computing_three.cache.async_inflight ≡ true) (3 ∷ [])
reachable-IsMarked_example =
    reachable-IsMarked ℕ_discrete (memory_backend ℕ_discrete) object {s = computing_three}
      computing_three-Reach
