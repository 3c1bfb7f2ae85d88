-- ===== src/RateLimiter/Outcomes.antt =====
-- src/pysilience/ratelimiter.py: when `acquire` grants, refuses or sleeps, and how `execute` ends.
use mathlib.Core.Path.{subst}
use native.Mathlib.Decide.{ℕ_discrete, dec_le}
use pysilience.Prelude.{
  ℕ, ◌+◌, ◌-◌, ◌≤◌, ◌<◌, ◌≡◌, refl, ◌∙◌, ◌⊎◌, inl, inr, true, false, some, none, Option, List, [],
  ◌∷◌, length, All, arith, tests, Bool-cases, leb, ◌==◌,
}
use pysilience.Python.{Exc, Result, raise, Clock, monotonic, Quotient, Leq, of_ℕ, minq}
use pysilience.RateLimiter.Token
use pysilience.RateLimiter.Leaky
use pysilience.RateLimiter.Fixed
use pysilience.RateLimiter.Sliding
use pysilience.RateLimiter.Config.{Config}
use pysilience.RateLimiter.Strategy.{
  Strategy, token, leaky, fixed, sliding, try_acquire, seconds_until_available,
}
use pysilience.RateLimiter.Limiter.{
  RateLimiter, Round, granted, refused, asleep, refuse, refuse_or_sleep, acquire_round,
  acquire_loop, acquire, sleep_for, execute_with, execute,
}

-- A strategy that reads the clock does not turn it back.
seconds_until_available-later :
    (s : Strategy) (clock : Clock) → clock.now ≤ (seconds_until_available s clock).2.now
unfolding seconds_until_available Token.seconds_until_available Leaky.seconds_until_available
    Fixed.seconds_until_available Sliding.seconds_until_available Sliding.weighted_count
seconds_until_available-later (token b) clock = ground arith
seconds_until_available-later (leaky b) clock = omega arith
seconds_until_available-later (fixed b) clock = ground arith
seconds_until_available-later (sliding b) clock = ground arith

refuse-refused :
    (l : RateLimiter)
    → ((err : Exc) × ((refuse l).0 ≡ refused err)) × (l.clock.now ≤ (refuse l).1.clock.now)
unfolding refuse
refuse-refused l = ((_, refl), seconds_until_available-later l.strategy l.clock)

minq-le : (q : Quotient) (n : ℕ) → Leq (minq q (of_ℕ n)) (of_ℕ n)
minq-le q n = ground arith

-- How a round ends that found no permit, with the deadline `due`.
abbrev Late : ℕ → RateLimiter → Round × RateLimiter → Type 0
Late due l (answer, l') =
    ((err : Exc) × (answer ≡ refused err)
      × ((l.config.timeout_duration ≡ 0) ⊎ (due ≤ l'.clock.now)))
    ⊎ ((wait : Quotient) × (answer ≡ asleep wait)
        × ((monotonic l.clock).now < due)
        × Leq wait (of_ℕ (due - (monotonic l.clock).now)))

refuse_or_sleep-Late : (due : ℕ) (l : RateLimiter) → Late due l (refuse_or_sleep due l)
unfolding refuse_or_sleep
refuse_or_sleep-Late due l = elim (ℕ_discrete l.config.timeout_duration 0) [
  | yes at_once ↦
      let ((err, e), later) = refuse-refused l in
      let test : (l.config.timeout_duration == 0) ≡ true = ground arith in
      rw test (inl (err, e, inl at_once))
  | no waits ↦
      let test : (l.config.timeout_duration == 0) ≡ false = ground arith in
      let read : RateLimiter = record l { clock = monotonic l.clock } in
      elim (dec_le due read.clock.now) [
        | yes late ↦
            let ((err, e), later) = refuse-refused read in
            let over : leb due read.clock.now ≡ true = grind tests in
            rw (test, over) (inl (err, e, inr (omega (arith, later))))
        | no early ↦
            let left : leb due read.clock.now ≡ false = grind tests in
            rw (test, left) (inr (_, refl, omega arith, minq-le _ _))
      ]
]

-- A round grants a permit exactly if the strategy has one. Otherwise it refuses the caller, and then
-- `timeout_duration` is zero or the deadline `due` has passed; or the caller sleeps, and that before
-- the deadline and for no longer than until then.
pub acquire_round-outcome :
    (start due : ℕ) (l : RateLimiter)
    → let (got, strategy, clock) = try_acquire l.strategy l.clock in
      let (answer, l') = acquire_round start due l in
      ((got ≡ true) × (waited : ℕ) × (answer ≡ granted waited))
      ⊎ ((got ≡ false)
          × (err : Exc) × (answer ≡ refused err)
          × ((l.config.timeout_duration ≡ 0) ⊎ (due ≤ l'.clock.now)))
      ⊎ ((got ≡ false)
          × (wait : Quotient) × (answer ≡ asleep wait)
          × ((monotonic clock).now < due)
          × Leq wait (of_ℕ (due - (monotonic clock).now)))
unfolding acquire_round
acquire_round-outcome start due l =
    let (got, strategy, clock) = try_acquire l.strategy l.clock in
    let tried : RateLimiter = record l { strategy = strategy; clock = clock } in
    elim (Bool-cases got) [
      | inl free ↦ rw free (inl (refl, _, refl))
      | inr full ↦ rw full (elim (refuse_or_sleep-Late due tried) [
        | inl (err, e, late) ↦ inr (inl (refl, err, e, late))
        | inr (wait, e, early, short) ↦ inr (inr (refl, wait, e, early, short))
      ])
    ]

-- What a refusal, if the answer is one, says of the time.
abbrev TimedOut : Config → ℕ → Round × RateLimiter → Type 0
TimedOut c due (granted waited, l) = Unit
TimedOut c due (asleep wait, l) = Unit
TimedOut c due (refused err, l) = (c.timeout_duration ≡ 0) ⊎ (due ≤ l.clock.now)

-- Others leave the configuration alone, which is frozen.
abbrev pub KeepsConfig : (RateLimiter → RateLimiter) → Type 0
KeepsConfig others = (l : RateLimiter) → (others l).config ≡ l.config

acquire_round-config :
    (start due : ℕ) (l : RateLimiter) → (acquire_round start due l).1.config ≡ l.config
unfolding acquire_round refuse_or_sleep refuse
acquire_round-config start due l = ground arith

acquire_round-TimedOut :
    (start due : ℕ) (l : RateLimiter) → TimedOut l.config due (acquire_round start due l)
acquire_round-TimedOut start due l =
    let (answer, l') = acquire_round start due l in
    elim (acquire_round-outcome start due l) [
      | inl (got, waited, e) ↦ rw e tt
      | inr (inl (got, err, e, late)) ↦ rw e late
      | inr (inr (got, wait, e, early, short)) ↦ rw e tt
    ]

acquire_loop-TimedOut :
    (start due : ℕ) (wakeups : List (RateLimiter → RateLimiter)) (l : RateLimiter)
    → All KeepsConfig wakeups
    → TimedOut l.config due (acquire_loop start due wakeups l)
unfolding acquire_loop
acquire_loop-TimedOut start due [] l keep = acquire_round-TimedOut start due l
acquire_loop-TimedOut start due (others ∷ wakeups) l keep =
    go (acquire_round start due l) (acquire_round-config start due l)
      (acquire_round-TimedOut start due l) (λ m. acquire_loop-TimedOut start due wakeups m keep.1)
  where
    go :
        (r : Round × RateLimiter)
        → r.1.config ≡ l.config
        → TimedOut l.config due r
        → ((m : RateLimiter) → TimedOut m.config due (acquire_loop start due wakeups m))
        → TimedOut l.config due (elim r.0 [
          | granted waited ↦ (granted waited, r.1)
          | refused err ↦ (refused err, r.1)
          | asleep wait ↦ acquire_loop start due wakeups (others (sleep_for wait r.1))
        ])
    go (granted waited, m) same h later = tt
    go (refused err, m) same h later = h
    go (asleep wait, m) same h later =
        let next : RateLimiter = others (sleep_for wait m) in
        let kept : next.config ≡ l.config = keep.0 (sleep_for wait m) ∙ same in
        subst (λ c. TimedOut c due (acquire_loop start due wakeups next)) kept (later next)

-- However often a caller of `acquire` sleeps and whatever others do meanwhile, it is refused only
-- after `timeout_duration`, or at once if that is zero.
pub acquire-refused_late :
    (wakeups : List (RateLimiter → RateLimiter)) (l : RateLimiter) (err : Exc)
    → All KeepsConfig wakeups
    → (acquire wakeups l).0 ≡ refused err
    → (l.config.timeout_duration ≡ 0)
      ⊎ ((monotonic l.clock).now + l.config.timeout_duration ≤ (acquire wakeups l).1.clock.now)
unfolding acquire
acquire-refused_late wakeups l err keep e =
    let start : RateLimiter = record l { clock = monotonic l.clock } in
    let due = start.clock.now + l.config.timeout_duration in
    let h = acquire_loop-TimedOut start.clock.now due wakeups start keep in rw e at h

-- How a call of `execute` ends, from the answer of `acquire`.
abbrev pub Ends {ℓ} :
    {A : Type ℓ}
    → (RateLimiter → Result A × RateLimiter)
    → Round × RateLimiter
    → Option (Result A) × RateLimiter
    → Type ℓ
Ends func (granted waited, l) (r, l') = r ≡ some (func l).0
Ends func (refused err, l) (r, l') =
    (r ≡ some (raise err)) × (length l'.events ≡ length l.events + 1) × (l'.strategy ≡ l.strategy)
Ends func (asleep wait, l) (r, l') = (r ≡ none) × (l' ≡ l)

execute_with-Ends {ℓ} :
    {A : Type ℓ} (func : RateLimiter → Result A × RateLimiter) (answer : Round) (l : RateLimiter)
    → Ends func (answer, l) (execute_with answer func l)
unfolding execute_with
execute_with-Ends func (granted waited) l = refl
execute_with-Ends func (refused err) l = (refl, omega arith, refl)
execute_with-Ends func (asleep wait) l = (refl, refl)

-- A caller that got a permit gets what `func` gives. One that is refused gets the exception of
-- `acquire`, with one event, without running `func` and without using up a permit. One that still
-- sleeps has changed nothing more.
pub limiter-Ends {ℓ} :
    {A : Type ℓ} (wakeups : List (RateLimiter → RateLimiter))
    (func : RateLimiter → Result A × RateLimiter) (l : RateLimiter)
    → Ends func (acquire wakeups l) (execute wakeups func l)
unfolding execute
limiter-Ends wakeups func l = execute_with-Ends func (acquire wakeups l).0 (acquire wakeups l).1
