-- ===== src/Retry/Loop.antt =====
-- src/pysilience/retry.py: `class Retry` and its loop. `func` takes and returns the world that it
-- works on. `events` and `sleeps` are what was emitted and slept, the latest first; `draws` counts
-- the calls of `random.uniform`, which a `Platform` has.
use pysilience.Prelude.{
  ℕ, zero, suc, ◌+◌, ◌-◌, Bool, false, not, ◌&&◌, Option, none, some, List, [], ◌∷◌, String, ltb,
  length, ◌*◌, ◌^◌, leb, if◌then◌else◌,
}
use pysilience.Python.{
  or_default, Exc, retries_exhausted, runtime_error, overflow_error, is_instance, is_exception,
  non_empty, Result, ok, raise, Quotient, of_ℕ, mul, pow, minq, maxq,
}
use pysilience.Retry.Config.{Config, Event, EventType}

pub record Retry : Type 0 where
  pub config : Config
  pub name : String
  pub events : List Event
  pub sleeps : List Quotient
  pub draws : ℕ

-- `random.uniform(lo, hi)`, at the n-th draw.
abbrev pub Uniform : Type 0
Uniform = Quotient → Quotient → ℕ → Quotient

-- What the loop calls: `random.uniform`, and the sleep, which may raise; at the n-th sleep.
pub record Platform : Type 0 where
  pub uniform : Uniform
  pub sleep : Quotient → ℕ → Result (Unit {0})

-- `__init__`
unfoldable pub init : Config → Option String → Retry
init config name = record {
  config = config;
  name = or_default name "retry";
  events = [];
  sleeps = [];
  draws = 0;
}

-- `_classifies_retryable`
unfoldable pub classifies_retryable : Config → Exc → Bool
classifies_retryable c exc =
    if non_empty c.abort_on && is_instance exc c.abort_on then false else is_instance exc c.retry_on

-- `min(raw, max_interval)` where a cap is set.
abbrev pub capped : Option ℕ → Quotient → Quotient
capped none raw = raw
capped (some cap) raw = minq raw (of_ℕ cap)

-- The wait before jitter: `initial_interval * multiplier ** k`, capped.
unfoldable pub base_wait : Config → ℕ → Quotient
base_wait c k = capped c.max_interval (mul (of_ℕ c.initial_interval) (pow c.multiplier k))

-- `1.0 - jitter_ratio` and `1.0 + jitter_ratio`
abbrev pub jitter_lo : Config → Quotient
jitter_lo c = record { num = c.jitter_ratio.den - c.jitter_ratio.num; den = c.jitter_ratio.den }

abbrev pub jitter_hi : Config → Quotient
jitter_hi c = record { num = c.jitter_ratio.den + c.jitter_ratio.num; den = c.jitter_ratio.den }

-- Whether a random factor is drawn.
abbrev pub jitters : Config → Bool
jitters c = c.jitter && ltb 0 c.jitter_ratio.num

-- `multiplier ** k` is a float, so that it raises `OverflowError` from `2 ** 1024` on.
unfoldable pub overflows : Quotient → ℕ → Bool
overflows m k = leb (2 ^ 1024 * m.den ^ k) (m.num ^ k)

-- `_wait_seconds_before_retry`, at the `draw`-th draw, where the power does not overflow.
unfoldable pub computed_wait : Uniform → Config → ℕ → ℕ → Quotient
computed_wait uniform c draw failed_attempt_index =
    if ltb failed_attempt_index 1
    then of_ℕ 0
    else let raw = base_wait c (failed_attempt_index - 1) in
      maxq (of_ℕ 0) (if jitters c then mul raw (uniform (jitter_lo c) (jitter_hi c) draw) else raw)

-- `_wait_seconds_before_retry`
unfoldable pub wait_seconds_before_retry : Uniform → Config → ℕ → ℕ → Result Quotient
wait_seconds_before_retry uniform c draw failed_attempt_index =
    if leb 1 failed_attempt_index && overflows c.multiplier (failed_attempt_index - 1)
    then raise overflow_error
    else ok (computed_wait uniform c draw failed_attempt_index)

abbrev pub emit_event : Event → Retry → Retry
emit_event e r = record r { events = e ∷ r.events }

abbrev pub emit : EventType → ℕ → Option Quotient → Option Exc → Retry → Retry
emit event_type attempt wait exc r =
    emit_event
      (record {
        event_type = event_type;
        name = r.name;
        attempt = attempt;
        max_attempts = r.config.max_attempts;
        wait_before_next = wait;
        exception = exc;
      })
      r

-- How one round of the loop ends.
pub data Verdict {ℓ} (A : Type ℓ) : Type ℓ where
  stop : Result A → Retry → Verdict A
  again : Retry → Verdict A

-- `time.sleep` or `asyncio.sleep`, which ends the loop if it raises.
unfoldable pub after_sleep {ℓ} : {A : Type ℓ} → Quotient → Retry → Result (Unit {0}) → Verdict A
after_sleep wait r (ok _) = again (record r { sleeps = wait ∷ r.sleeps })
after_sleep wait r (raise exc) = stop (raise exc) r

-- The wait before the next round, if it could be computed: an event, then a sleep.
unfoldable pub after_wait {ℓ} :
    {A : Type ℓ} → Platform → ℕ → Exc → Retry → Result Quotient → Verdict A
after_wait platform attempt exc r (raise overflow) = stop (raise overflow) r
after_wait platform attempt exc r (ok wait) =
    let told = emit EventType.attempt_failure attempt (some wait) (some exc) r in
    after_sleep wait (record told { draws = if jitters r.config then r.draws + 1 else r.draws })
      (platform.sleep wait (length r.sleeps))

unfoldable pub wait_and_retry {ℓ} : {A : Type ℓ} → Platform → ℕ → Exc → Retry → Verdict A
wait_and_retry platform attempt exc r =
    after_wait platform attempt exc r
      (wait_seconds_before_retry platform.uniform r.config r.draws attempt)

-- The body of `except Exception as exc`.
unfoldable pub on_exception {ℓ} : {A : Type ℓ} → Platform → ℕ → Exc → Retry → Verdict A
on_exception platform attempt exc r =
    if not (classifies_retryable r.config exc)
    then stop (raise exc) (emit EventType.non_retryable attempt none (some exc) r)
    else if leb r.config.max_attempts attempt
    then stop (raise (retries_exhausted r.name attempt exc))
        (emit EventType.exhausted attempt none (some exc) r)
    else wait_and_retry platform attempt exc r

-- The `try` of one round, after `func` ended.
unfoldable pub on_result {ℓ} : {A : Type ℓ} → Platform → ℕ → Result A → Retry → Verdict A
on_result platform attempt (ok result) r =
    stop (ok result) (emit EventType.success attempt none none r)
on_result platform attempt (raise exc) r =
    if is_exception exc then on_exception platform attempt exc r else stop (raise exc) r

-- `for attempt in range(...)`, with the rounds that are left.
unfoldable pub attempts {ℓ κ} :
    {A : Type ℓ} {W : Type κ}
    → Platform
    → (W → Result A × W)
    → ℕ
    → ℕ
    → Retry
    → W
    → Result A × Retry × W
attempts platform func zero attempt r w = (raise runtime_error, r, w)
attempts platform func (suc left) attempt r w =
    let (result, w') = func w in
    elim (on_result platform attempt result r) [
      | stop outcome r' ↦ (outcome, r', w')
      | again r' ↦ attempts platform func left (attempt + 1) r' w'
    ]

-- `execute`
unfoldable pub execute {ℓ κ} :
    {A : Type ℓ} {W : Type κ} → Platform → (W → Result A × W) → Retry → W → Result A × Retry × W
execute platform func r w = attempts platform func r.config.max_attempts 1 r w

-- `execute_async`: the same loop over an awaited factory, with `asyncio.sleep`.
unfoldable pub execute_async {ℓ κ} :
    {A : Type ℓ} {W : Type κ} → Platform → (W → Result A × W) → Retry → W → Result A × Retry × W
execute_async platform factory r w = attempts platform factory r.config.max_attempts 1 r w
