-- ===== src/RateLimiter/Smooth.antt =====
-- src/pysilience/ratelimiter.py: the weighted count of `_SlidingWindowStrategy`.
use native.Mathlib.Nat.{lt-div-mul-add, le_of_mul-le-mul_right}
use pysilience.Prelude.{
  ℕ, zero, suc, ◌+◌, ◌-◌, ◌*◌, ◌/◌, ◌≤◌, ◌<◌, ◌≡◌, refl, Bool, true, false, leb, ◌==◌, arith,
  if◌then◌else◌, mul_mono, Bool-cases, inl, inr, whole_windows, List, [], ◌∷◌, leb→le,
}
use pysilience.Python.{Clock, monotonic, next_delay, later_delays}
use pysilience.RateLimiter.Sliding.{
  SlidingWindow, maybe_advance, weighted_count, try_acquire, try_all,
}

-- The weighted count, at the time of the clock, is within the limit, as each of its two counts is.
pub record IsSmooth (b : SlidingWindow) (clock : Clock) : Type 0 where
  pub period_pos : 0 < b.period
  pub prev_within : b.prev_count ≤ b.limit
  pub curr_within : b.curr_count ≤ b.limit
  pub past : b.window_start ≤ clock.now
  pub smooth :
      (b.prev_count + b.curr_count) * b.period
      ≤ b.limit * b.period + b.prev_count * (clock.now - b.window_start)

-- No time passes between the two readings of one call.
abbrev pub Paired : List ℕ → Type 0
Paired [] = Unit
Paired (d ∷ []) = Unit
Paired (d ∷ e ∷ rest) = (e ≡ 0) × Paired rest

mul_mono_right : (a b c : ℕ) → a ≤ b → c * a ≤ c * b
mul_mono_right a b c h = omega (arith, mul_mono a b c h)

-- After `_maybe_advance` the window holds the time of the reading.
pub record IsCurrent (now : ℕ) (b : SlidingWindow) : Type 0 where
  pub period_pos : 0 < b.period
  pub prev_within : b.prev_count ≤ b.limit
  pub curr_within : b.curr_count ≤ b.limit
  pub past : b.window_start ≤ now
  pub in_window : now - b.window_start < b.period
  pub smooth :
      (b.prev_count + b.curr_count) * b.period
      ≤ b.limit * b.period + b.prev_count * (now - b.window_start)

choice-le : (test : Bool) (a limit : ℕ) → a ≤ limit → (if test then a else 0) ≤ limit
choice-le true a limit h = h
choice-le false a limit h = omega arith

pub maybe_advance-IsCurrent :
    (now : ℕ) (b : SlidingWindow) (clock : Clock)
    → IsSmooth b clock
    → clock.now ≤ now
    → IsCurrent now (maybe_advance now b)
unfolding maybe_advance
maybe_advance-IsCurrent now b clock h le =
    let elapsed = now - b.window_start in
    let later = mul_mono_right (clock.now - b.window_start) elapsed b.prev_count (omega arith) in
    elim (Bool-cases (leb b.period elapsed)) [
      | inl over ↦
          let (fits, some_window) = whole_windows elapsed b.period h.period_pos (ground arith) in
          let below = lt-div-mul-add {a = elapsed} h.period_pos in
          let within = choice-le (elapsed / b.period == 1) b.curr_count b.limit h.curr_within in
          rw over (record {
            period_pos = h.period_pos;
            prev_within = within;
            curr_within = omega arith;
            past = omega (arith, fits);
            in_window = omega (arith, below);
            smooth = omega (arith, mul_mono _ b.limit b.period within);
          })
      | inr same ↦ rw same (record {
        period_pos = h.period_pos;
        prev_within = h.prev_within;
        curr_within = h.curr_within;
        past = omega arith;
        in_window = ground arith;
        smooth = omega (arith, h.smooth, later);
      })
    ]

granted-IsSmooth :
    (now : ℕ) (b : SlidingWindow) (clock : Clock)
    → IsCurrent now b
    → clock.now ≡ now
    → (b.prev_count + b.curr_count) * b.period + b.period
      ≤ b.limit * b.period + b.prev_count * (clock.now - b.window_start)
    → IsSmooth (record b { curr_count = b.curr_count + 1 }) clock
granted-IsSmooth now b clock c same room =
    let faded =
      mul_mono_right (clock.now - b.window_start) b.period b.prev_count
        (omega (arith, c.in_window)) in
    let scaled : (b.curr_count + 1) * b.period ≤ b.limit * b.period = omega (arith, room, faded) in
    record {
      period_pos = c.period_pos;
      prev_within = c.prev_within;
      curr_within = le_of_mul-le-mul_right scaled c.period_pos;
      past = omega (arith, c.past);
      smooth = omega (arith, room);
    }

pub try_acquire-IsSmooth :
    (b : SlidingWindow) (clock : Clock)
    → IsSmooth b clock
    → next_delay (later_delays clock.delays) ≡ 0
    → IsSmooth (try_acquire b clock).1 (try_acquire b clock).2
unfolding try_acquire weighted_count
try_acquire-IsSmooth b clock h steady =
    let now = (monotonic clock).now in
    let b' = maybe_advance now b in
    let c = maybe_advance-IsCurrent now b clock h (omega arith) in
    let same : (monotonic (monotonic clock)).now ≡ now = omega arith in
    let read = monotonic (monotonic clock) in
    elim (Bool-cases (
      leb ((b'.prev_count + b'.curr_count) * b'.period + b'.period)
        (b'.limit * b'.period + b'.prev_count * (read.now - b'.window_start)))) [
          | inl room ↦ rw room (granted-IsSmooth now b' read c same (leb→le _ _ room))
          | inr full ↦ rw full (record {
            period_pos = c.period_pos;
            prev_within = c.prev_within;
            curr_within = c.curr_within;
            past = omega (arith, c.past);
            smooth = rw same c.smooth;
          })
        ]

pub steady-first : (ds : List ℕ) → Paired ds → next_delay (later_delays ds) ≡ 0
steady-first [] h = refl
steady-first (d ∷ []) h = refl
steady-first (d ∷ e ∷ rest) h = h.0

pub steady-rest : (ds : List ℕ) → Paired ds → Paired (later_delays (later_delays ds))
steady-rest [] h = tt
steady-rest (d ∷ []) h = tt
steady-rest (d ∷ e ∷ rest) h = h.1

pub try_acquire-delays :
    (b : SlidingWindow) (clock : Clock)
    → (try_acquire b clock).2.delays ≡ later_delays (later_delays clock.delays)
unfolding try_acquire weighted_count
try_acquire-delays b clock = ground arith

-- If no time passes between the two readings of a call, then after any number of calls, however they
-- are spread over the time, the weighted count is within the limit, and so is the count of each
-- window.
pub sliding-IsSmooth :
    (n : ℕ) (b : SlidingWindow) (clock : Clock)
    → IsSmooth b clock
    → Paired clock.delays
    → IsSmooth (try_all n b clock).0 (try_all n b clock).1
unfolding try_all
sliding-IsSmooth zero b clock h p = h
sliding-IsSmooth (suc n) b clock h p =
    sliding-IsSmooth n (try_acquire b clock).1 (try_acquire b clock).2
      (try_acquire-IsSmooth b clock h (steady-first clock.delays p))
      (rw (try_acquire-delays b clock) (steady-rest clock.delays p))
