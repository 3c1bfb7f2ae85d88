-- ===== src/Bulkhead/Machine.antt =====
-- src/pysilience/bulkhead.py: the permits under concurrent calls. The blocks under the semaphore
-- and under `_async_mu` come in any order.
use pysilience.Prelude.{ℕ, ◌+◌, ◌≤◌, ◌≡◌, refl, true, false, Option, String, ltb, arith, List}
use pysilience.Python.{Clock, sleep}
use pysilience.Bulkhead.Config.{Config, Event}
use pysilience.Bulkhead.Permits.{
  Bulkhead, init, sem_try, sync_release, taken, refused, wait, async_try, async_release,
}

-- The object, and how many synchronous and asynchronous calls hold a permit.
pub record System : Type 0 where
  pub bulkhead : Bulkhead
  pub sync_running : ℕ
  pub async_running : ℕ

pub data Step (s t : System) : Type 0 where
  sync_enter :
      (b : Bulkhead)
      → sem_try s.bulkhead ≡ (true, b)
      → t ≡ record s { bulkhead = b; sync_running = s.sync_running + 1 }
      → Step s t
  sync_refuse :
      (b : Bulkhead) → sem_try s.bulkhead ≡ (false, b) → t ≡ record s { bulkhead = b } → Step s t
  sync_leave :
      (n : ℕ)
      → s.sync_running ≡ n + 1
      → t ≡ record s { bulkhead = sync_release s.bulkhead; sync_running = n }
      → Step s t
  async_enter :
      (due : ℕ) (b : Bulkhead)
      → async_try due s.bulkhead ≡ (taken, b)
      → t ≡ record s { bulkhead = b; async_running = s.async_running + 1 }
      → Step s t
  async_refuse :
      (due : ℕ) (b : Bulkhead)
      → async_try due s.bulkhead ≡ (refused, b)
      → t ≡ record s { bulkhead = b }
      → Step s t
  async_wait :
      (due left : ℕ) (b : Bulkhead)
      → async_try due s.bulkhead ≡ (wait left, b)
      → t ≡ record s { bulkhead = b }
      → Step s t
  async_leave :
      (n : ℕ)
      → s.async_running ≡ n + 1
      → t ≡ record s { bulkhead = async_release s.bulkhead; async_running = n }
      → Step s t
  told :
      (events : List Event)
      → t ≡ record s { bulkhead = record (s.bulkhead) { events = events } }
      → Step s t
  time_passes :
      (d : ℕ)
      → t ≡ record s { bulkhead = record (s.bulkhead) { clock = sleep d s.bulkhead.clock } }
      → Step s t

pub data Reach (s : System) : System → Type 0 where
  here : Reach s s
  next : {t u : System} → Reach s t → Step t u → Reach s u

-- Permits are neither lost nor made, and the event is set exactly while an asynchronous permit is
-- free.
pub record IsSafe (config : Config) (s : System) : Type 0 where
  pub configured : s.bulkhead.config ≡ config
  pub sync_permits : s.bulkhead.sync_sem + s.sync_running ≡ config.max_concurrent
  pub async_permits : s.bulkhead.async_n + s.async_running ≡ config.max_concurrent
  pub awake : s.bulkhead.async_wake ≡ ltb 0 s.bulkhead.async_n

Step-IsSafe : (config : Config) {s t : System} → Step s t → IsSafe config s → IsSafe config t
unfolding sem_try sync_release async_try async_release
Step-IsSafe config (sync_enter b e q) h = ground arith
Step-IsSafe config (sync_refuse b e q) h = ground arith
Step-IsSafe config (sync_leave n e q) h = ground arith
Step-IsSafe config (async_enter due b e q) h = ground arith
Step-IsSafe config (async_refuse due b e q) h = ground arith
Step-IsSafe config (async_wait due left b e q) h = ground arith
Step-IsSafe config (async_leave n e q) h = ground arith
Step-IsSafe config (told events q) h = ground arith
Step-IsSafe config (time_passes d q) h = ground arith

Reach-IsSafe : (config : Config) {s t : System} → IsSafe config s → Reach s t → IsSafe config t
Reach-IsSafe config h here = h
Reach-IsSafe config h (next r step) = Step-IsSafe config step (Reach-IsSafe config h r)

-- A new object that nothing uses yet.
abbrev pub start : Config → Option String → Clock → System
start config name clock = record {
  bulkhead = init config name clock;
  sync_running = 0;
  async_running = 0;
}

-- However calls interleave from a new object: at most `max_concurrent` synchronous and at most
-- `max_concurrent` asynchronous calls run at once, each permit is held by a running call or free,
-- and `_async_wake` is set exactly while an asynchronous permit is free.
pub permits_conserved :
    (config : Config) (name : Option String) (clock : Clock) {s : System}
    → Reach (start config name clock) s
    → IsSafe config s
      × (s.sync_running ≤ config.max_concurrent)
      × (s.async_running ≤ config.max_concurrent)
unfolding init
permits_conserved config name clock r =
    let safe =
      Reach-IsSafe config
        (record {
          configured = refl;
          sync_permits = omega arith;
          async_permits = omega arith;
          awake = refl;
        })
        r in
    (safe, omega arith, omega arith)
