-- ===== src/Timeout/Background.antt =====
-- src/pysilience/timeout.py: the tasks of `execute_async` that are not cancelled. Tasks are made, end
-- and have their callback run by the event loop in any order.
use native.Mathlib.Decide.{ℕ_discrete}
use pysilience.Prelude.{
  ℕ, ◌+◌, ◌≤◌, ◌≡◌, ap, if◌then◌else◌, refl, sym, ◌⊎◌, inl, inr, Bool, true, false, List, [], ◌∷◌,
  ◌++◌, String, Option, none, some, arith, Bool-cases, leb,
}
use pysilience.Python.{Clock, Result, ok, raise, is_exception}
use pysilience.Python.Sets.{
  contains, add, count, count_self, count_ne, count-drop_self, count-drop_ne, contains-add_self,
  contains-add_ne, contains-discard_self, contains-discard_ne,
}
use pysilience.Timeout.Config.{Config}
use pysilience.Timeout.Limiter.{
  Timeout, Run, asyncio_wait_for, late_end, conclude_late, is_cancelled, conclude, succeed, fail,
  time_out, is_timeout_error,
}
use pysilience.Timeout.Limiter.{execute_async as limiter_execute_async}
use pysilience.Timeout.Resources.{
  Resources, init, shutdown, execute_async, create_task, on_background_task_done,
}

-- The object, the executors that are closed, the tasks of shielded coroutines that run, and those
-- that ended and whose callback is still to run.
pub record System : Type 0 where
  pub resources : Resources
  pub closed : List ℕ
  pub running : List ℕ
  pub ended : List ℕ

-- How many times the event loop knows a task.
abbrev pub known : ℕ → System → ℕ
known task s = count ℕ_discrete task s.running + count ℕ_discrete task s.ended

abbrev pub tracked : ℕ → System → Bool
tracked task s = contains ℕ_discrete task s.resources.background_tasks

pub data Step (s : System) : System → Type 0 where
  -- a call makes a task for its coroutine, which is shielded
  shielded :
      (task : ℕ)
      → s.resources.timeout.config.cancel_running_future ≡ false
      → known task s ≡ 0
      → Step s (record s { resources = create_task task s.resources; running = task ∷ s.running })
  -- the task ends, and the event loop is to run its callback
  finished :
      (before after : List ℕ) (task : ℕ)
      → s.running ≡ before ++ (task ∷ after)
      → Step s (record s { running = before ++ after; ended = task ∷ s.ended })
  called_back :
      (before after : List ℕ) (task : ℕ)
      → s.ended ≡ before ++ (task ∷ after)
      → Step s (record s {
        resources = on_background_task_done task s.resources;
        ended = before ++ after;
      })
  -- a caller is told, or the time is over, which ends no task
  told :
      (timeout : Timeout)
      → timeout.config ≡ s.resources.timeout.config
      → Step s (record s { resources = record (s.resources) { timeout = timeout } })
  shut : Step s (record s {
    resources = (shutdown s.resources s.closed).0;
    closed = (shutdown s.resources s.closed).1;
  })

pub data Reach (s : System) : System → Type 0 where
  here : Reach s s
  next : {t u : System} → Reach s t → Step t u → Reach s u

-- The object holds a task exactly while the event loop knows it, as one.
abbrev pub IsTracked : System → Type 0
IsTracked s =
    (task : ℕ)
    → ((tracked task s ≡ true) × (known task s ≡ 1))
      ⊎ ((tracked task s ≡ false) × (known task s ≡ 0))

create_task-background :
    (task : ℕ) (t : Resources)
    → t.timeout.config.cancel_running_future ≡ false
    → (create_task task t).background_tasks ≡ add ℕ_discrete task t.background_tasks
unfolding create_task
create_task-background task t h =
    ap
      (λ b.
        let kept = record t { background_tasks = add ℕ_discrete task t.background_tasks } in
        let r : Resources = if b then t else kept in r.background_tasks)
      h

-- A task that ends stays known.
known-moved :
    (q task : ℕ) (before after ended : List ℕ)
    → count ℕ_discrete q (before ++ after) + count ℕ_discrete q (task ∷ ended)
      ≡ count ℕ_discrete q (before ++ (task ∷ after)) + count ℕ_discrete q ended
known-moved q task before after ended = elim (ℕ_discrete task q) [
  | yes p ↦
      let left = count-drop_self ℕ_discrete task before after in
      let moved = count_self ℕ_discrete task ended in rw (← p) (omega (arith, left, moved))
  | no n ↦
      rw (count-drop_ne ℕ_discrete q task before after n, count_ne ℕ_discrete q task ended n) refl
]

known-IsTracked : (s : System) → IsTracked s → (task : ℕ) → known task s ≤ 1
known-IsTracked s h task = elim (h task) [
  | inl (_, one) ↦ omega arith
  | inr (_, zero_of) ↦ omega arith
]

Step-IsTracked : {s t : System} → Step s t → IsTracked s → IsTracked t
unfolding on_background_task_done shutdown
Step-IsTracked {s = s} (shielded task config new) h q =
    let created = create_task-background task s.resources config in
    let held = contains-add_self ℕ_discrete task s.resources.background_tasks in
    let once = count_self ℕ_discrete task s.running in
    elim (ℕ_discrete task q) [
      | yes p ↦ rw (← p, created) (inl (held, omega (arith, once, new)))
      | no n ↦
          rw
            (
              created,
              contains-add_ne ℕ_discrete q task s.resources.background_tasks n,
              count_ne ℕ_discrete q task s.running n,
            )
            (h q)
    ]
Step-IsTracked {s = s} (finished before after task split) h q =
    rw (known-moved q task before after s.ended, ← split) (h q)
Step-IsTracked {s = s} (called_back before after task split) h q = elim (ℕ_discrete task q) [
  | yes p ↦
      let left = count-drop_self ℕ_discrete task before after in
      let gone = contains-discard_self ℕ_discrete task s.resources.background_tasks in
      let once = known-IsTracked s h task in
      let in_ended : count ℕ_discrete task s.ended ≡ count ℕ_discrete task (before ++ after) + 1 =
        rw split left in
      rw (← p) (inr (gone, omega (arith, once, in_ended)))
  | no n ↦
      rw
        (
          contains-discard_ne ℕ_discrete q task s.resources.background_tasks (λ e. n (sym e)),
          ← count-drop_ne ℕ_discrete q task before after n,
          ← split,
        )
        (h q)
]
Step-IsTracked (told timeout config) h q = h q
Step-IsTracked {s = s} shut h q = elim (Bool-cases s.resources.owns_executor) [
  | inl own ↦ rw own (h q)
  | inr shared ↦ rw shared (h q)
]

-- The calls of the object are such steps.
conclude-config {ℓ} :
    {A : Type ℓ} (start : ℕ) (r : Result A) (t : Timeout) → (conclude start r t).1.config ≡ t.config
unfolding conclude succeed fail time_out
conclude-config start (ok a) t = refl
conclude-config start (raise exc) t = elim (Bool-cases (is_timeout_error exc)) [
  | inl late ↦ rw late refl
  | inr other ↦ elim (Bool-cases (is_exception exc)) [
    | inl caught ↦ rw (other, caught) refl
    | inr passes ↦ rw (other, passes) refl
  ]
]

conclude_late-config {ℓ} :
    {A : Type ℓ} (start : ℕ) (r : Result A) (t : Timeout)
    → (conclude_late start r t).1.config ≡ t.config
unfolding conclude_late succeed time_out
conclude_late-config start (ok a) t = refl
conclude_late-config start (raise exc) t = elim (Bool-cases (is_cancelled exc)) [
  | inl cancelled ↦ rw cancelled refl
  | inr other_end ↦ rw other_end (conclude-config start (raise exc) t)
]

execute_async-config {ℓ} :
    {A : Type ℓ} (run : Run A) (t : Timeout) → (limiter_execute_async run t).1.config ≡ t.config
unfolding limiter_execute_async asyncio_wait_for
execute_async-config run t = elim (Bool-cases (leb run.takes t.config.duration)) [
  | inl in_time ↦ rw in_time (conclude-config _ run.result _)
  | inr late ↦ rw late (conclude_late-config _ (late_end t.config run) _)
]

pub execute_async-Reach {ℓ} :
    {A : Type ℓ} (task : ℕ) (run : Run A) (s : System)
    → s.resources.timeout.config.cancel_running_future ≡ false
    → known task s ≡ 0
    → Reach s (record s {
      resources = (execute_async task run s.resources).1;
      running = task ∷ s.running;
    })
unfolding execute_async
execute_async-Reach task run s config new = next (next here (shielded task config new)) (
    told (limiter_execute_async run (create_task task s.resources).timeout).1
      (execute_async-config run (create_task task s.resources).timeout))

abbrev pub start : Config → Option String → Option ℕ → Clock → System
start config name executor clock = record {
  resources = init config name executor clock;
  closed = [];
  running = [];
  ended = [];
}

Reach-IsTracked : {s t : System} → IsTracked s → Reach s t → IsTracked t
Reach-IsTracked h here = h
Reach-IsTracked h (next r step) = Step-IsTracked step (Reach-IsTracked h r)

start-IsTracked :
    (config : Config) (name : Option String) (executor : Option ℕ) (clock : Clock)
    → IsTracked (start config name executor clock)
unfolding init contains count
start-IsTracked config name none clock q = inr (refl, refl)
start-IsTracked config name (some executor) clock q = inr (refl, refl)

-- However calls, tasks and callbacks interleave from a new object, whether calls are told in time or
-- too late and the object is shut down or not: `_background_tasks` holds exactly the tasks of
-- shielded coroutines that run or whose callback is still to run, each once.
pub reachable-IsTracked :
    (config : Config) (name : Option String) (executor : Option ℕ) (clock : Clock) {s : System}
    → Reach (start config name executor clock) s
    → IsTracked s
reachable-IsTracked config name executor clock r =
    Reach-IsTracked (start-IsTracked config name executor clock) r
