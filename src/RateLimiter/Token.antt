-- ===== src/RateLimiter/Token.antt =====
-- src/pysilience/ratelimiter.py: `_TokenBucketStrategy`. The fractional number of tokens is kept
-- exactly, as `scaled_tokens`, the tokens times the period; a refill of `limit / period` tokens for
-- each tick adds `limit` to it.
use pysilience.Prelude.{
  ℕ, zero, suc, ◌+◌, ◌-◌, ◌*◌, ◌/◌, ◌≤◌, ◌<◌, ◌≡◌, Bool, true, false, leb, min, if◌then◌else◌,
}
use pysilience.Python.{Clock, monotonic, Quotient, of_ℕ}

pub record TokenBucket : Type 0 where
  pub limit : ℕ
  pub period : ℕ
  pub scaled_tokens : ℕ
  pub last_refill : ℕ

-- `__init__`
unfoldable pub init : ℕ → ℕ → Clock → TokenBucket × Clock
init limit period clock =
    let clock' = monotonic clock in
    (
      record {
        limit = limit;
        period = period;
        scaled_tokens = limit * period;
        last_refill = clock'.now;
      },
      clock',
    )

-- `_refill`, at a reading of the clock.
unfoldable pub refill : ℕ → TokenBucket → TokenBucket
refill now b = record b {
  scaled_tokens = min (b.limit * b.period) (b.scaled_tokens + (now - b.last_refill) * b.limit);
  last_refill = now;
}

-- `try_acquire`
unfoldable pub try_acquire : TokenBucket → Clock → Bool × TokenBucket × Clock
try_acquire b clock =
    let clock' = monotonic clock in
    let full = refill clock'.now b in
    if leb full.period full.scaled_tokens
    then (true, record full { scaled_tokens = full.scaled_tokens - full.period }, clock')
    else (false, full, clock')

-- `seconds_until_available`: `(1 - tokens) / refill_rate`
unfoldable pub seconds_until_available : TokenBucket → Clock → Quotient × TokenBucket × Clock
seconds_until_available b clock =
    let clock' = monotonic clock in
    let full = refill clock'.now b in
    if leb full.period full.scaled_tokens
    then (of_ℕ 0, full, clock')
    else (record { num = full.period - full.scaled_tokens; den = full.limit }, full, clock')

-- `permits`
unfoldable pub permits : TokenBucket → Clock → ℕ × TokenBucket × Clock
permits b clock =
    let clock' = monotonic clock in
    let full = refill clock'.now b in (full.scaled_tokens / full.period, full, clock')

-- The tokens fit the capacity, and the last refill is not in the future.
pub record IsValid (b : TokenBucket) (clock : Clock) : Type 0 where
  pub period_pos : 0 < b.period
  pub limit_pos : 0 < b.limit
  pub fits : b.scaled_tokens ≤ b.limit * b.period
  pub past : b.last_refill ≤ clock.now

-- Callers one after the other: how many of `n` calls of `try_acquire` are granted, and
-- what is left.
unfoldable pub try_all : ℕ → TokenBucket → Clock → ℕ × TokenBucket × Clock
try_all zero b clock = (0, b, clock)
try_all (suc n) b clock =
    let (granted, b', clock') = try_acquire b clock in
    let (more, b'', clock'') = try_all n b' clock' in
    ((if granted then suc more else more), b'', clock'')

-- What a call of `try_acquire` pays for a grant out of the tokens and the refill.
record Paid (granted : Bool) (before after : TokenBucket) : Type 0 where
  same_limit : after.limit ≡ before.limit
  same_period : after.period ≡ before.period
  later : before.last_refill ≤ after.last_refill
  paid :
      (if granted then before.period else 0)
        + after.scaled_tokens
        + before.last_refill * before.limit
      ≤ before.scaled_tokens + after.last_refill * before.limit

-- What `granted` grants in a row pay.
record Spent (granted : ℕ) (before after : TokenBucket) : Type 0 where
  same_limit : after.limit ≡ before.limit
  same_period : after.period ≡ before.period
  later : before.last_refill ≤ after.last_refill
  spent :
      granted * before.period + after.scaled_tokens + before.last_refill * before.limit
      ≤ before.scaled_tokens + after.last_refill * before.limit
