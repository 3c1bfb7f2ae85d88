-- ===== src/Tests/Bulkhead.antt =====
-- src/pysilience/bulkhead.py at concrete inputs.
use pysilience.Prelude.{ℕ, ◌≤◌, ◌≡◌, refl, true, false, some, [], ◌∷◌}
use pysilience.Python.{is_instance, is_exception, Result, ok, raise}
use pysilience.Bulkhead.Config.{Config}
use pysilience.Bulkhead.Permits.{
  Bulkhead, init, sem_try, sem_wait, sync_acquire, sync_release, taken, deadline, async_try,
  async_loop, async_acquire, async_release, tell, execute_with, execute, execute_async_with,
  execute_async,
}
use pysilience.Bulkhead.Machine.{
  System, sync_enter, Reach, here, next, start, IsSafe, permits_conserved,
}
use pysilience.Bulkhead.Execute.{Ends, bulkhead-Ends}
use pysilience.Tests.Data.{interrupt, clock}

program : Unit {0}
unfolding is_instance is_exception init sem_try sem_wait sync_acquire sync_release deadline
    async_try async_loop async_acquire async_release tell execute_with execute execute_async_with
    execute_async
program = tt

abbrev config : Config
config = record { max_concurrent = 1; max_wait = 5 }

abbrev fresh : Bulkhead
fresh = record {
  config = config;
  name = "pool";
  clock = clock;
  sync_sem = 1;
  async_n = 1;
  async_wake = true;
  events = [];
}

abbrev full : Bulkhead
full = record fresh { sync_sem = 0; async_n = 0; async_wake = false }

abbrev working : Bulkhead → Result ℕ × Bulkhead
working b = (ok 7, b)

-- It ends in an exception that `except Exception` does not catch.
abbrev interrupted : Bulkhead → Result ℕ × Bulkhead
interrupted b = (raise interrupt, b)

interrupted-gives_back : (execute [] interrupted fresh ≡ (raise interrupt, fresh))
unfolding program
interrupted-gives_back = refl

-- Another call gives its permit back while this one waits.
served_later : (execute (sync_release ∷ []) working full).0 ≡ ok 7
unfolding program
served_later = refl

abbrev busy : System
busy = record { bulkhead = record fresh { sync_sem = 0 }; sync_running = 1; async_running = 0 }

busy-Reach : Reach (start config (some "pool") clock) busy
unfolding program
busy-Reach = next here (sync_enter (record fresh { sync_sem = 0 }) refl refl)

permits_conserved_example : IsSafe config busy × (1 ≤ 1) × (0 ≤ 1)
permits_conserved_example = permits_conserved config (some "pool") clock {s = busy} busy-Reach

bulkhead-Ends_example : Ends working (sync_acquire [] full) (execute [] working full)
bulkhead-Ends_example = bulkhead-Ends [] working full

fresh-taken : (async_acquire [] fresh).0 ≡ taken
unfolding program
fresh-taken = refl
