-- ===== src/RateLimiter/Sliding.antt =====
-- src/pysilience/ratelimiter.py: `_SlidingWindowStrategy`.

use pysilience.Prelude.{
  ℕ, zero, suc, ◌+◌, ◌-◌, ◌*◌, ◌/◌, Bool, true, false, leb, ltb, ◌==◌, if◌then◌else◌,
}
use pysilience.Python.{Clock, monotonic, Quotient, of_ℕ, minq}

pub record SlidingWindow : Type 0 where
  pub limit : ℕ
  pub period : ℕ
  pub prev_count : ℕ
  pub curr_count : ℕ
  pub window_start : ℕ

-- `__init__`
unfoldable pub init : ℕ → ℕ → Clock → SlidingWindow × Clock
init limit period clock =
    let clock' = monotonic clock in
    (
      record {
        limit = limit;
        period = period;
        prev_count = 0;
        curr_count = 0;
        window_start = clock'.now;
      },
      clock',
    )

-- `_maybe_advance`, at a reading of the clock.
unfoldable pub maybe_advance : ℕ → SlidingWindow → SlidingWindow
maybe_advance now b =
    let elapsed = now - b.window_start in
    let windows = elapsed / b.period in
    if leb b.period elapsed
    then record b {
      prev_count = if windows == 1 then b.curr_count else 0;
      curr_count = 0;
      window_start = b.window_start + windows * b.period;
    }
    else b

-- The result of `_weighted_count`, which may be negative: `(plus - minus) / period`.
pub record Weighted : Type 0 where
  pub plus : ℕ
  pub minus : ℕ

-- `_weighted_count`, which reads the clock twice.
unfoldable pub weighted_count : SlidingWindow → Clock → Weighted × SlidingWindow × Clock
weighted_count b clock =
    let clock' = monotonic clock in
    let b' = maybe_advance clock'.now b in
    let later = monotonic clock' in
    (
      record {
        plus = (b'.prev_count + b'.curr_count) * b'.period;
        minus = b'.prev_count * (later.now - b'.window_start);
      },
      b',
      later,
    )

-- `weighted_count + 1.0 <= limit`, multiplied by the period.
abbrev pub has_room : Weighted → SlidingWindow → Bool
has_room w b = leb (w.plus + b.period) (b.limit * b.period + w.minus)

-- `try_acquire`
unfoldable pub try_acquire : SlidingWindow → Clock → Bool × SlidingWindow × Clock
try_acquire b clock =
    let (w, b', clock') = weighted_count b clock in
    if has_room w b'
    then (true, record b' { curr_count = b'.curr_count + 1 }, clock')
    else (false, b', clock')

-- `seconds_until_available`; `excess / decrease_rate` is a quotient by `prev_count`.
unfoldable pub seconds_until_available : SlidingWindow → Clock → Quotient × SlidingWindow × Clock
seconds_until_available b clock =
    let (w, b', clock') = weighted_count b clock in
    let later = monotonic clock' in
    let remaining = of_ℕ (b'.period - (later.now - b'.window_start)) in
    let excess = w.plus + b'.period - (b'.limit * b'.period + w.minus) in
    if has_room w b'
    then (of_ℕ 0, b', clock')
    else if ltb 0 b'.prev_count
    then (minq (record { num = excess; den = b'.prev_count }) remaining, b', later)
    else (remaining, b', later)

-- `permits`
unfoldable pub permits : SlidingWindow → Clock → ℕ × SlidingWindow × Clock
permits b clock =
    let (w, b', clock') = weighted_count b clock in
    ((b'.limit * b'.period + w.minus - w.plus) / b'.period, b', clock')

-- Callers one after the other, and what is left.
unfoldable pub try_all : ℕ → SlidingWindow → Clock → SlidingWindow × Clock
try_all zero b clock = (b, clock)
try_all (suc n) b clock = try_all n (try_acquire b clock).1 (try_acquire b clock).2
