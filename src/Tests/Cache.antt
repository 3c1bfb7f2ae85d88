-- ===== src/Tests/Cache.antt =====
-- src/pysilience/cache.py at concrete inputs.
use native.Mathlib.Decide.{ℕ_discrete}
use pysilience.Prelude.{ℕ, ◌≡◌, ◌≢◌, refl, true, false, none, some, List, [], ◌∷◌, All, last, arith}
use pysilience.Python.{is_instance, is_exception, Result, ok, raise, monotonic}
use pysilience.Python.Dict.{find, remove, assign, move_to_end}
use pysilience.Cache.Memory.{
  Memory, init, evict, get, put, put_new, delete, stamped, memory_backend,
}
use pysilience.Cache.Laws.{IsValid, touch, put-last}
use pysilience.Cache.History.{
  Operation, read, write, drop_key, drop_all, apply_all, history-IsValid,
}
use pysilience.Cache.Coordination.{
  Cache, contains, discard, reserve, reserve_with, sync_check_or_reserve, sync_unreserve, stored,
  finish, execute_with, execute,
}
use pysilience.Cache.Keys.{Once}
use pysilience.Cache.Coalesce.{System, started, Reach, here, next, reachable-IsCoalesced}
use pysilience.Cache.Abandoned.{abandoned_waits}
use pysilience.Tests.Data.{interrupt, clock}

program : Unit {0}
unfolding is_instance is_exception find remove assign move_to_end evict get put put_new delete
    contains discard reserve reserve_with sync_check_or_reserve sync_unreserve stored finish
    execute_with execute ℕ_discrete
program = tt

-- Two entries, as many as fit; key 1 is the least recently used.
abbrev two : Memory ℕ ℕ
two = record {
  max_size = 2;
  ttl = some 50;
  store =
      (1, record { value = 10; cached_at = 90 }) ∷ (2, record { value = 20; cached_at = 95 }) ∷ [];
  clock = clock;
}

two-IsValid : IsValid ℕ_discrete two
unfolding find ℕ_discrete
two-IsValid = record {
  positive = omega arith;
  bounded = omega arith;
  distinct = (refl, (refl, tt));
}

abbrev one : Memory ℕ ℕ
one = record two { store = (1, record { value = 10; cached_at = 90 }) ∷ [] }

one-IsValid : IsValid ℕ_discrete one
unfolding find ℕ_discrete
one-IsValid = record { positive = omega arith; bounded = omega arith; distinct = (refl, tt) }

two_ne_one : ◌≢◌ {A = ℕ} 2 1
two_ne_one = λ e. absurd (omega arith)

evicts_oldest : find ℕ_discrete 1 (put ℕ_discrete 3 30 none two).1.store ≡ none
unfolding program
evicts_oldest = refl

put-last_example : put ℕ_discrete 3 30 none two ≡ (
  ok tt,
  record two {
    store = last 2 (touch ℕ_discrete 3 (stamped 30 two) two.store);
    clock = monotonic clock;
  },
)
put-last_example = put-last ℕ_discrete 3 30 none two two-IsValid

abbrev some_operations : List (Operation ℕ ℕ)
some_operations =
    write 1 10 none ∷ write 2 20 none ∷ read 1 ∷ write 3 30 none ∷ drop_key 3 ∷ drop_all ∷ []

history-IsValid_example :
    IsValid ℕ_discrete (apply_all ℕ_discrete some_operations (init 2 (some 50) clock))
history-IsValid_example = history-IsValid ℕ_discrete some_operations 2 (some 50) clock (omega arith)

abbrev Object : Type 0
Object = Cache ℕ (Memory ℕ ℕ)

abbrev object : Object
object = record {
  config = record { max_size = 2; ttl = some 50 };
  name = "users";
  backend = two;
  inflight = [];
  async_inflight = [];
  events = [];
}

abbrev computing_three : System {K = ℕ} {V = ℕ} ℕ_discrete (memory_backend ℕ_discrete)
computing_three = record { cache = record object { inflight = 3 ∷ [] }; computing = 3 ∷ [] }

computing_three-Reach :
    Reach ℕ_discrete
      (memory_backend ℕ_discrete)
      (record { cache = object; computing = [] })
      computing_three
unfolding program
computing_three-Reach = next here (started 3 refl)

reachable-IsCoalesced_example :
    Once ℕ_discrete (3 ∷ [])
    × All (λ k. contains ℕ_discrete k computing_three.cache.inflight ≡ true) (3 ∷ [])
reachable-IsCoalesced_example =
    reachable-IsCoalesced ℕ_discrete (memory_backend ℕ_discrete) object {s = computing_three}
      computing_three-Reach

abbrev interrupted : Object → Result ℕ × Object
interrupted c = (raise interrupt, c)

abbrev working : Object → Result ℕ × Object
working c = (ok 30, c)

three_absent : find ℕ_discrete 3 two.store ≡ none
unfolding find ℕ_discrete
three_absent = refl

interrupt-passes : is_exception interrupt ≡ false
unfolding program
interrupt-passes = refl

three_free : contains ℕ_discrete 3 object.inflight ≡ false
unfolding contains
three_free = refl

abandoned_waits_example :
    (execute ℕ_discrete
      (memory_backend ℕ_discrete)
      ((λ c. c) ∷ [])
      3
      working
      (execute ℕ_discrete (memory_backend ℕ_discrete) [] 3 interrupted object).1).0
    ≡ none
abandoned_waits_example =
    abandoned_waits ℕ_discrete 3 interrupted working interrupt object ((λ c. c) ∷ []) three_absent
      three_free interrupt-passes (λ d h. (refl, h)) ((λ d h. h), tt)
