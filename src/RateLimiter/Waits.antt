-- ===== src/RateLimiter/Waits.antt =====
-- src/pysilience/ratelimiter.py: that the wait which `seconds_until_available` announces is enough.
use native.Mathlib.Nat.{lt-div-mul-add}
use pysilience.Prelude.{
  ℕ, ◌+◌, ◌-◌, ◌*◌, ◌/◌, ◌≤◌, ◌<◌, ◌≡◌, true, leb, ltb, arith, mul_mono, Bool-cases, inl, inr,
  le→leb, lt→ltb, leb→le, ltb→lt, ◌⊎◌,
}
use pysilience.Python.{Clock, monotonic, sleep, of_ℕ, ceil}
use pysilience.RateLimiter.Token
use pysilience.RateLimiter.Leaky
use pysilience.RateLimiter.Fixed

-- The whole ticks cover the quotient.
ceil-covers : (n d : ℕ) → 0 < d → n ≤ (n + d - 1) / d * d
ceil-covers n d h = omega (arith, lt-div-mul-add {a = n + d - 1} h)

-- A refill that brings enough is not lost to the capacity.
refill_reaches :
    (later : ℕ) (b : Token.TokenBucket)
    → 0 < b.limit
    → b.period ≤ b.scaled_tokens + (later - b.last_refill) * b.limit
    → leb b.period (Token.refill later b).scaled_tokens ≡ true
unfolding Token.refill
refill_reaches later b p h =
    let one_permit : b.period ≤ b.limit * b.period = grind arith in ground arith

token_reaches :
    (b : Token.TokenBucket) (clock : Clock)
    → 0 < b.limit
    → b.period ≤ b.scaled_tokens + ((monotonic clock).now - b.last_refill) * b.limit
    → (Token.try_acquire b clock).0 ≡ true
unfolding Token.try_acquire Token.refill
token_reaches b clock p h = rw (refill_reaches (monotonic clock).now b p h)

-- A caller that finds no token in a bucket, sleeps as long as `seconds_until_available` says, and
-- finds nobody ahead of it, gets a token.
pub token-wait_enough :
    (b : Token.TokenBucket) (clock : Clock)
    → Token.IsValid b clock
    → let (wait, b', clock') = Token.seconds_until_available b clock in
      (Token.try_acquire b' (sleep (ceil wait) clock')).0 ≡ true
unfolding Token.seconds_until_available Token.refill
token-wait_enough b clock h =
    let read = monotonic clock in
    let full = Token.refill read.now b in
    elim (Bool-cases (leb full.period full.scaled_tokens)) [
      | inl there ↦ rw there (token_reaches full _ h.limit_pos (omega (arith, leb→le _ _ there)))
      | inr short ↦
          let missing = full.period - full.scaled_tokens in
          let wait = ceil (record { num = missing; den = full.limit }) in
          let again = monotonic (sleep wait read) in
          let grown = mul_mono wait (again.now - read.now) b.limit (omega arith) in
          let covers = ceil-covers missing b.limit h.limit_pos in
          rw short (token_reaches full (sleep wait read) h.limit_pos (omega (arith, covers, grown)))
    ]

-- A caller that finds a leaky bucket closed, sleeps as long as `seconds_until_available` says, and
-- finds nobody ahead of it, gets a permit.
pub leaky-wait_enough :
    (b : Leaky.LeakyBucket) (clock : Clock)
    → Leaky.IsValid b clock
    → let (wait, b', clock') = Leaky.seconds_until_available b clock in
      (Leaky.try_acquire b' (sleep (ceil wait) clock')).0 ≡ true
unfolding Leaky.seconds_until_available Leaky.try_acquire
leaky-wait_enough b clock h =
    let now = (monotonic clock).now in
    let short = b.next_scaled - now * b.limit in
    let covers = ceil-covers short b.limit h.limit_pos in
    let again =
      monotonic (sleep (ceil (record { num = short; den = b.limit })) (monotonic clock)) in
    let grown =
      mul_mono (now + ceil (record { num = short; den = b.limit })) again.now b.limit
        (omega arith) in
    let due : b.next_scaled ≤ again.now * b.limit = omega (arith, covers, grown) in
    rw (le→leb _ _ due)

-- A window with room, or one that is over, grants.
fixed_reaches :
    (b : Fixed.FixedWindow) (clock : Clock)
    → 0 < b.limit
    → (b.count < b.limit) ⊎ (b.period ≤ (monotonic clock).now - b.window_start)
    → (Fixed.try_acquire b clock).0 ≡ true
unfolding Fixed.try_acquire Fixed.maybe_advance
fixed_reaches b clock p h =
    let elapsed = (monotonic clock).now - b.window_start in
    elim (Bool-cases (leb b.period elapsed)) [
      | inl over ↦ rw (over, lt→ltb 0 b.limit p)
      | inr within ↦ let room : b.count < b.limit = ground arith in rw (within, lt→ltb _ _ room)
    ]

-- A caller that finds a fixed window used up, sleeps as long as `seconds_until_available` says, and
-- finds nobody ahead of it, gets a permit of the next window.
pub fixed-wait_enough :
    (b : Fixed.FixedWindow) (clock : Clock)
    → Fixed.IsValid b clock
    → 0 < b.limit
    → let (wait, b', clock') = Fixed.seconds_until_available b clock in
      (Fixed.try_acquire b' (sleep (ceil wait) clock')).0 ≡ true
unfolding Fixed.seconds_until_available
fixed-wait_enough b clock h p =
    let read = monotonic clock in
    let b' = Fixed.maybe_advance read.now b in
    let (spent, within, past) = Fixed.maybe_advance-Spent read.now b clock h (omega arith) in
    let positive : 0 < b'.limit = rw spent.same_limit p in
    elim (Bool-cases (ltb b'.count b'.limit)) [
      | inl room ↦ rw room (fixed_reaches b' (sleep 0 read) positive (inl (ltb→lt _ _ room)))
      | inr full ↦
          let later = monotonic read in
          let left = b'.period - (later.now - b'.window_start) in
          let covers = ceil-covers left 1 (omega arith) in
          rw full (
            fixed_reaches b' (sleep (ceil (of_ℕ left)) later) positive
              (inr (omega (arith, past, covers))))
    ]
