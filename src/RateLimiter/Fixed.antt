-- ===== src/RateLimiter/Fixed.antt =====
-- src/pysilience/ratelimiter.py: `_FixedWindowStrategy`.
use pysilience.Prelude.{
  ℕ, zero, suc, ◌+◌, ◌-◌, ◌*◌, ◌/◌, ◌≤◌, ◌<◌, ◌≡◌, refl, Bool, true, false, leb, ltb, arith,
  if◌then◌else◌, mul_mono, ◌∙◌, Bool-cases, inl, inr, whole_windows, mul_split,
}
use pysilience.Python.{Clock, monotonic, Quotient, of_ℕ}

pub record FixedWindow : Type 0 where
  pub limit : ℕ
  pub period : ℕ
  pub count : ℕ
  pub window_start : ℕ

-- `__init__`
unfoldable pub init : ℕ → ℕ → Clock → FixedWindow × Clock
init limit period clock =
    let clock' = monotonic clock in
    (record { limit = limit; period = period; count = 0; window_start = clock'.now }, clock')

-- `_maybe_advance`, at a reading of the clock.
unfoldable pub maybe_advance : ℕ → FixedWindow → FixedWindow
maybe_advance now b =
    let elapsed = now - b.window_start in
    if leb b.period elapsed
    then record b { window_start = b.window_start + elapsed / b.period * b.period; count = 0 }
    else b

-- `try_acquire`
unfoldable pub try_acquire : FixedWindow → Clock → Bool × FixedWindow × Clock
try_acquire b clock =
    let clock' = monotonic clock in
    let b' = maybe_advance clock'.now b in
    if ltb b'.count b'.limit
    then (true, record b' { count = b'.count + 1 }, clock')
    else (false, b', clock')

-- `seconds_until_available`, which may read the clock twice.
unfoldable pub seconds_until_available : FixedWindow → Clock → Quotient × FixedWindow × Clock
seconds_until_available b clock =
    let clock' = monotonic clock in
    let b' = maybe_advance clock'.now b in
    let later = monotonic clock' in
    if ltb b'.count b'.limit
    then (of_ℕ 0, b', clock')
    else (of_ℕ (b'.period - (later.now - b'.window_start)), b', later)

-- `permits`
unfoldable pub permits : FixedWindow → Clock → ℕ × FixedWindow × Clock
permits b clock =
    let clock' = monotonic clock in
    let b' = maybe_advance clock'.now b in (b'.limit - b'.count, b', clock')

-- A window has started, and has granted no more than the limit.
pub record IsValid (b : FixedWindow) (clock : Clock) : Type 0 where
  pub period_pos : 0 < b.period
  pub within : b.count ≤ b.limit
  pub past : b.window_start ≤ clock.now

-- Callers one after the other: how many of `n` calls of `try_acquire` are granted, and
-- what is left.
unfoldable pub try_all : ℕ → FixedWindow → Clock → ℕ × FixedWindow × Clock
try_all zero b clock = (0, b, clock)
try_all (suc n) b clock =
    let (granted, b', clock') = try_acquire b clock in
    let (more, b'', clock'') = try_all n b' clock' in
    ((if granted then suc more else more), b'', clock'')

-- What is granted is counted, but for the counts that whole windows have reset.
pub record Spent (granted : ℕ) (before after : FixedWindow) : Type 0 where
  pub same_limit : after.limit ≡ before.limit
  pub same_period : after.period ≡ before.period
  pub spent :
      (granted + before.count) * before.period + before.window_start * before.limit
      ≤ after.count * before.period + after.window_start * before.limit

pub maybe_advance-Spent :
    (now : ℕ) (b : FixedWindow) (clock : Clock)
    → IsValid b clock
    → clock.now ≤ now
    → let b' = maybe_advance now b in Spent 0 b b' × (b'.count ≤ b'.limit) × (b'.window_start ≤ now)
unfolding maybe_advance
maybe_advance-Spent now b clock h le =
    let elapsed = now - b.window_start in
    elim (Bool-cases (leb b.period elapsed)) [
      | inl over ↦
          let (fits, some_window) = whole_windows elapsed b.period h.period_pos (ground arith) in
          let paid = mul_mono b.count b.limit b.period h.within in
          let grown = mul_mono b.period (elapsed / b.period * b.period) b.limit some_window in
          rw over (
            record { same_limit = refl; same_period = refl; spent = omega (arith, paid, grown) },
            omega arith,
            omega (arith, fits),
          )
      | inr same ↦ rw same (
        record { same_limit = refl; same_period = refl; spent = omega arith },
        h.within,
        omega arith,
      )
    ]

take-Spent : (b b' : FixedWindow) → Spent 0 b b' → Spent 1 b (record b' { count = b'.count + 1 })
take-Spent b b' h =
    let spent : b.count * b.period + b.window_start * b.limit
        ≤ b'.count * b.period + b'.window_start * b.limit =
      omega (arith, h.spent) in
    record { same_limit = h.same_limit; same_period = h.same_period; spent = omega (arith, spent) }

try_acquire-Spent :
    (b : FixedWindow) (clock : Clock)
    → IsValid b clock
    → let (granted, b', clock') = try_acquire b clock in
      IsValid b' clock' × Spent (if granted then 1 else 0) b b'
unfolding try_acquire
try_acquire-Spent b clock h =
    let now = (monotonic clock).now in
    let b' = maybe_advance now b in
    let (spent, within, past) = maybe_advance-Spent now b clock h (omega arith) in
    let positive : 0 < b'.period = rw spent.same_period h.period_pos in
    elim (Bool-cases (ltb b'.count b'.limit)) [
      | inl free ↦ rw free (
        record { period_pos = positive; within = ground arith; past = past },
        take-Spent b b' spent,
      )
      | inr full ↦ rw full (record { period_pos = positive; within = within; past = past }, spent)
    ]

add-Spent :
    (more one : ℕ) (b b' b'' : FixedWindow)
    → Spent one b b'
    → Spent more b' b''
    → Spent (one + more) b b''
add-Spent more one b b' b'' first rest =
    let spent : (more + b'.count) * b.period + b'.window_start * b.limit
        ≤ b''.count * b.period + b''.window_start * b.limit =
      rw (first.same_period, first.same_limit) at rest.spent in
    record {
      same_limit = rest.same_limit ∙ first.same_limit;
      same_period = rest.same_period ∙ first.same_period;
      spent = omega (arith, spent, first.spent);
    }

count_grants :
    (granted : Bool) (more : ℕ)
    → (if granted then 1 else 0) + more ≡ (if granted then suc more else more)
count_grants true more = omega arith
count_grants false more = omega arith

try_all-Spent :
    (n : ℕ) (b : FixedWindow) (clock : Clock)
    → IsValid b clock
    → let (granted, b', clock') = try_all n b clock in Spent granted b b' × IsValid b' clock'
unfolding try_all
try_all-Spent zero b clock h =
    (record { same_limit = refl; same_period = refl; spent = omega arith }, h)
try_all-Spent (suc n) b clock h =
    let (granted, b', clock') = try_acquire b clock in
    let (valid, one) = try_acquire-Spent b clock h in
    let (more, b'', clock'') = try_all n b' clock' in
    let (rest, valid') = try_all-Spent n b' clock' valid in
    (
      rw (count_grants granted more) at
          (add-Spent more (if granted then 1 else 0) b b' b'' one rest),
      valid',
    )

-- However the calls are spread over the time, a fixed window grants at most its limit and what
-- `limit` per `period` adds in the time since the window started.
pub fixed-bound :
    (n : ℕ) (b : FixedWindow) (clock : Clock)
    → IsValid b clock
    → let (granted, b', clock') = try_all n b clock in
      granted * b.period ≤ b.limit * b.period + (clock'.now - b.window_start) * b.limit
fixed-bound n b clock h =
    let (granted, b', clock') = try_all n b clock in
    let (all, valid) = try_all-Spent n b clock h in
    let within : b'.count ≤ b.limit = rw all.same_limit at valid.within in
    omega (
      arith,
      all.spent,
      mul_mono b'.count b.limit b.period within,
      mul_mono b'.window_start clock'.now b.limit valid.past,
      mul_split clock'.now b.window_start b.limit,
    )
