-- ===== src/Tests/RateLimiter.antt =====
-- src/pysilience/ratelimiter.py at concrete inputs.
use pysilience.Prelude.{ℕ, ◌+◌, ◌-◌, ◌*◌, ◌≤◌, ◌≡◌, refl, ◌⊎◌, true, List, [], ◌∷◌, All, arith}
use pysilience.Python.{rate_limit_exceeded, Result, ok, pos, Clock, monotonic, Quotient}
use pysilience.RateLimiter.Config.{Algorithm, Config, Args}
use pysilience.RateLimiter.Token
use pysilience.RateLimiter.Leaky
use pysilience.RateLimiter.Fixed
use pysilience.RateLimiter.Sliding
use pysilience.RateLimiter.Smooth.{IsSmooth}
use pysilience.RateLimiter.Counted.{IsCounted, grant_times, sliding-IsCounted}
use pysilience.RateLimiter.Strategy
use pysilience.RateLimiter.Limiter.{
  RateLimiter, refuse, refuse_or_sleep, acquire_round, acquire_loop, acquire, refused, execute_with,
  execute,
}
use pysilience.RateLimiter.Outcomes.{acquire-refused_late}
use pysilience.Tests.Data.{clock}

program : Unit {0}
unfolding refuse refuse_or_sleep acquire_round acquire_loop acquire execute_with execute
    Strategy.try_acquire Strategy.seconds_until_available Token.try_acquire Token.refill
    Token.seconds_until_available Sliding.maybe_advance Sliding.weighted_count Sliding.try_acquire
program = tt

abbrev args : Args
args = record {
  limit_for_period = pos 3;
  limit_refresh_period = pos 10;
  timeout_duration = pos 0;
  algorithm = Algorithm.token_bucket;
}

abbrev config : Config
config = record {
  limit_for_period = 3;
  limit_refresh_period = 10;
  timeout_duration = 0;
  algorithm = Algorithm.token_bucket;
}

abbrev bucket : Token.TokenBucket
bucket = record { limit = 3; period = 10; scaled_tokens = 30; last_refill = 100 }

abbrev drip : Leaky.LeakyBucket
drip = record { limit = 3; period = 10; next_scaled = 305 }

leaky-IsSpaced_example :
    All (λ t. drip.next_scaled ≤ t * 3) (Leaky.grant_times 5 drip clock)
    × Leaky.IsSpaced drip (Leaky.grant_times 5 drip clock)
leaky-IsSpaced_example = Leaky.leaky-IsSpaced 5 drip clock

abbrev window : Fixed.FixedWindow
window = record { limit = 3; period = 10; count = 2; window_start = 92 }

window-IsValid : Fixed.IsValid window clock
window-IsValid = omega arith

fixed-bound_example :
    let (granted_count, b', clock') = Fixed.try_all 5 window clock in
    granted_count * 10 ≤ 3 * 10 + (clock'.now - 92) * 3
fixed-bound_example = Fixed.fixed-bound 5 window clock window-IsValid

abbrev blend : Sliding.SlidingWindow
blend = record { limit = 4; period = 10; prev_count = 4; curr_count = 1; window_start = 95 }

abbrev steady_clock : Clock
steady_clock = record { now = 100; delays = 1 ∷ 0 ∷ 7 ∷ 0 ∷ [] }

blend-IsSmooth : IsSmooth blend steady_clock
blend-IsSmooth = omega arith

-- The times of the five grants.
abbrev blend_times : List ℕ
blend_times = 97 ∷ 94 ∷ 93 ∷ 90 ∷ 86 ∷ []

blend-IsCounted : IsCounted blend blend_times
blend-IsCounted = record { current = refl; last = refl; past_end = ground arith }

sliding-IsCounted_example :
    let (b', clock') = Sliding.try_all 2 blend steady_clock in
    IsSmooth b' clock' × IsCounted b' (grant_times 2 blend steady_clock blend_times)
sliding-IsCounted_example =
    sliding-IsCounted 2 blend steady_clock blend_times blend-IsSmooth blend-IsCounted
      (refl, (refl, tt))

-- The second reading of a call comes after the window of the first: the weight of the last window
-- is negative, and the full window grants once more.
abbrev full_blend : Sliding.SlidingWindow
full_blend = record { limit = 2; period = 10; prev_count = 2; curr_count = 2; window_start = 95 }

overshoots :
    let (got, b', clock') =
      Sliding.try_acquire full_blend (record { now = 100; delays = 1 ∷ 14 ∷ [] }) in
    (got ≡ true) × (b'.curr_count ≡ 3)
unfolding program
overshoots = (refl, refl)

abbrev limiter : RateLimiter
limiter = record {
  config = config;
  name = "api";
  strategy = Strategy.token (record bucket { scaled_tokens = 0 });
  clock = clock;
  events = [];
}

-- Three ticks after the refill, nine tenths of a token are there; what is missing comes at a rate of
-- three tenths for each tick.
abbrev missing : Quotient
missing = record { num = 1; den = 3 }

abbrev slow : RateLimiter
slow = record limiter { clock = record { now = 100; delays = 0 ∷ 3 ∷ [] } }

slow-refused : (acquire [] slow).0 ≡ refused (rate_limit_exceeded "api" 0 missing)
unfolding program
slow-refused = refl

acquire-refused_late_example :
    (config.timeout_duration ≡ 0)
    ⊎ ((monotonic slow.clock).now + config.timeout_duration ≤ (acquire [] slow).1.clock.now)
acquire-refused_late_example =
    acquire-refused_late [] slow (rate_limit_exceeded "api" 0 missing) tt slow-refused

abbrev working : RateLimiter → Result ℕ × RateLimiter
working l = (ok 7, l)
