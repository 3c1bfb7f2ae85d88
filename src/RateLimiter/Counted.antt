-- ===== src/RateLimiter/Counted.antt =====
-- src/pysilience/ratelimiter.py: the two counts of `_SlidingWindowStrategy` are numbers of grants.
use pysilience.Prelude.{
  ℕ, zero, suc, ◌+◌, ◌-◌, ◌*◌, ◌/◌, ◌≤◌, ◌<◌, ◌≡◌, refl, sym, ◌∙◌, Bool, true, false, ◌&&◌, leb,
  ltb, ◌==◌, arith, if◌then◌else◌, mul_mono, Bool-cases, inl, inr, whole_windows, List, [], ◌∷◌,
  All,
}
use pysilience.Python.{Clock, monotonic, later_delays, next_delay}
use pysilience.RateLimiter.Sliding.{
  SlidingWindow, maybe_advance, weighted_count, try_acquire, try_all,
}
use pysilience.RateLimiter.Smooth.{
  IsSmooth, Paired, IsCurrent, maybe_advance-IsCurrent, try_acquire-IsSmooth, try_acquire-delays,
  steady-first, steady-rest,
}

-- How many of the times pass a test.
abbrev pub count_if : (ℕ → Bool) → List ℕ → ℕ
count_if f [] = 0
count_if f (t ∷ times) = (if f t then 1 else 0) + count_if f times

-- Whether a time is in the window of the object, or in the one before.
abbrev pub in_window : SlidingWindow → ℕ → Bool
in_window b t = leb b.window_start t

abbrev pub in_last_window : SlidingWindow → ℕ → Bool
in_last_window b t = ltb t b.window_start && leb b.window_start (t + b.period)

-- The counts of the object are those of the grants in its window and in the one before, where `times`
-- are the times of all grants.
pub record IsCounted (b : SlidingWindow) (times : List ℕ) : Type 0 where
  pub current : b.curr_count ≡ count_if (in_window b) times
  pub last : b.prev_count ≡ count_if (in_last_window b) times
  pub past_end : All (λ t. t < b.window_start + b.period) times

module _ {P : ℕ → Type 0} where
  count_if-same :
      (f g : ℕ → Bool) (times : List ℕ)
      → ((t : ℕ) → P t → f t ≡ g t)
      → All P times
      → count_if f times ≡ count_if g times
  count_if-same f g [] same h = refl
  count_if-same f g (t ∷ times) same h = rw (same t h.0, count_if-same f g times same h.1) refl

  count_if-none :
      (f : ℕ → Bool) (times : List ℕ)
      → ((t : ℕ) → P t → f t ≡ false)
      → All P times
      → count_if f times ≡ 0
  count_if-none f [] none_in h = refl
  count_if-none f (t ∷ times) none_in h = rw (none_in t h.0, count_if-none f times none_in h.1) refl

  All-weaken : {Q : ℕ → Type 0} (times : List ℕ) → ((t : ℕ) → P t → Q t) → All P times → All Q times
  All-weaken [] f h = tt
  All-weaken (t ∷ times) f h = (f t h.0, All-weaken times f h.1)

-- A later window, which has no grants yet.
abbrev moved : ℕ → ℕ → SlidingWindow → SlidingWindow
moved start prev b = record b { prev_count = prev; curr_count = 0; window_start = start }

moved-IsCounted :
    (start prev : ℕ) (b : SlidingWindow) (times : List ℕ)
    → b.window_start + b.period ≤ start
    → IsCounted b times
    → prev ≡ count_if (in_last_window (moved start prev b)) times
    → IsCounted (moved start prev b) times
moved-IsCounted start prev b times later h same = record {
  current = sym (
      count_if-none (in_window (moved start prev b)) times (λ t p. ground (arith, p, later))
        h.past_end);
  last = same;
  past_end = All-weaken times (λ t p. omega (arith, p, later)) h.past_end;
}

-- After one window the last window is the one that was counted.
next-IsCounted :
    (b : SlidingWindow) (times : List ℕ)
    → 0 < b.period
    → IsCounted b times
    → IsCounted (moved (b.window_start + 1 * b.period) b.curr_count b) times
next-IsCounted b times pos h =
    moved-IsCounted (b.window_start + 1 * b.period) b.curr_count b times (omega arith) h
      (h.current ∙ count_if-same (in_window b) _ times (λ t p. ground (arith, p)) h.past_end)

-- After more windows, no grant is in the last one.
skipped-IsCounted :
    (start : ℕ) (b : SlidingWindow) (times : List ℕ)
    → b.window_start + b.period + b.period ≤ start
    → IsCounted b times
    → IsCounted (moved start 0 b) times
skipped-IsCounted start b times later h = moved-IsCounted start 0 b times (omega arith) h (
    sym (
      count_if-none (in_last_window (moved start 0 b)) times (λ t p. ground (arith, p, later))
        h.past_end))

advanced-IsCounted :
    (windows : ℕ) (b : SlidingWindow) (times : List ℕ)
    → 0 < b.period
    → b.period ≤ windows * b.period
    → IsCounted b times
    → IsCounted
        (moved (b.window_start + windows * b.period) (if windows == 1 then b.curr_count else 0) b)
        times
advanced-IsCounted zero b times pos some_window h = absurd (omega arith)
advanced-IsCounted (suc zero) b times pos some_window h = next-IsCounted b times pos h
advanced-IsCounted (suc (suc n)) b times pos some_window h =
    let twice = mul_mono 2 (suc (suc n)) b.period (omega arith) in
    let more : (suc (suc n) == 1) ≡ false = ground arith in
    rw more (skipped-IsCounted _ b times (omega (arith, twice)) h)

pub maybe_advance-IsCounted :
    (now : ℕ) (b : SlidingWindow) (times : List ℕ)
    → 0 < b.period
    → IsCounted b times
    → IsCounted (maybe_advance now b) times
unfolding maybe_advance
maybe_advance-IsCounted now b times pos h =
    let elapsed = now - b.window_start in
    elim (Bool-cases (leb b.period elapsed)) [
      | inl over ↦
          let (fits, some_window) = whole_windows elapsed b.period pos (ground arith) in
          rw over (advanced-IsCounted (elapsed / b.period) b times pos some_window h)
      | inr same ↦ rw same h
    ]

-- The times of all grants after a call, and after `n` calls.
abbrev pub granted_at : Bool → ℕ → List ℕ → List ℕ
granted_at true now times = now ∷ times
granted_at false now times = times

unfoldable pub grant_times : ℕ → SlidingWindow → Clock → List ℕ → List ℕ
grant_times zero b clock times = times
grant_times (suc n) b clock times =
    let (granted, b', clock') = try_acquire b clock in
    grant_times n b' clock' (granted_at granted clock'.now times)

-- One more grant, in the window of the object.
granted-IsCounted :
    (now : ℕ) (b : SlidingWindow) (times : List ℕ)
    → IsCurrent now b
    → IsCounted b times
    → IsCounted (record b { curr_count = b.curr_count + 1 }) (now ∷ times)
granted-IsCounted now b times c h =
    let inside : in_window b now ≡ true = ground (arith, c.past) in
    let not_last : in_last_window b now ≡ false = ground (arith, c.past) in
    record {
      current = rw (inside, ← h.current) (omega arith);
      last = rw (not_last, ← h.last) (omega arith);
      past_end = (omega (arith, c.past, c.in_window), h.past_end);
    }

try_acquire-IsCounted :
    (b : SlidingWindow) (clock : Clock) (times : List ℕ)
    → IsSmooth b clock
    → IsCounted b times
    → next_delay (later_delays clock.delays) ≡ 0
    → let (granted, b', clock') = try_acquire b clock in
      IsCounted b' (granted_at granted clock'.now times)
unfolding try_acquire weighted_count
try_acquire-IsCounted b clock times s h steady =
    let now = (monotonic clock).now in
    let b' = maybe_advance now b in
    let c = maybe_advance-IsCurrent now b clock s (omega arith) in
    let counted = maybe_advance-IsCounted now b times s.period_pos h in
    let read = monotonic (monotonic clock) in
    let same : read.now ≡ now = omega arith in
    elim (Bool-cases (
      leb ((b'.prev_count + b'.curr_count) * b'.period + b'.period)
        (b'.limit * b'.period + b'.prev_count * (read.now - b'.window_start)))) [
          | inl room ↦ rw (room, same) (granted-IsCounted now b' times c counted)
          | inr full ↦ rw full counted
        ]

-- If no time passes between the two readings of a call, then after any number of calls, however they
-- are spread over the time, the two counts are the numbers of grants in the current and in the last
-- window, and the weighted count that they make is within the limit, as each of them is.
pub sliding-IsCounted :
    (n : ℕ) (b : SlidingWindow) (clock : Clock) (times : List ℕ)
    → IsSmooth b clock
    → IsCounted b times
    → Paired clock.delays
    → let (b', clock') = try_all n b clock in
      IsSmooth b' clock' × IsCounted b' (grant_times n b clock times)
unfolding try_all grant_times
sliding-IsCounted zero b clock times s h p = (s, h)
sliding-IsCounted (suc n) b clock times s h p =
    let steady = steady-first clock.delays p in
    let (granted, b', clock') = try_acquire b clock in
    sliding-IsCounted n b' clock' (granted_at granted clock'.now times)
      (try_acquire-IsSmooth b clock s steady) (try_acquire-IsCounted b clock times s h steady)
      (rw (try_acquire-delays b clock) (steady-rest clock.delays p))
