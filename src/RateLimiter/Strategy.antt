-- ===== src/RateLimiter/Strategy.antt =====
-- src/pysilience/ratelimiter.py: `_RateLimitStrategy`, which the four classes implement, and
-- `_create_strategy`.
use pysilience.Prelude.{ℕ, Bool}
use pysilience.Python.{Clock, Quotient}
use pysilience.RateLimiter.Config.{Algorithm, Config}
use pysilience.RateLimiter.Token.{TokenBucket}
use pysilience.RateLimiter.Leaky.{LeakyBucket}
use pysilience.RateLimiter.Fixed.{FixedWindow}
use pysilience.RateLimiter.Sliding.{SlidingWindow}
use pysilience.RateLimiter.Token
use pysilience.RateLimiter.Leaky
use pysilience.RateLimiter.Fixed
use pysilience.RateLimiter.Sliding

pub data Strategy : Type 0 where
  token : TokenBucket → Strategy
  leaky : LeakyBucket → Strategy
  fixed : FixedWindow → Strategy
  sliding : SlidingWindow → Strategy

-- A class under the interface: its answer, the object and the clock.
abbrev as_strategy {ℓ κ} :
    {A : Type ℓ} {B : Type κ} → (B → Strategy) → A × B × Clock → A × Strategy × Clock
as_strategy wrap (answer, b, clock) = (answer, wrap b, clock)

abbrev made {ℓ} : {B : Type ℓ} → (B → Strategy) → B × Clock → Strategy × Clock
made wrap (b, clock) = (wrap b, clock)

-- `_create_strategy`, by the algorithm.
unfoldable pub create_by : Algorithm → ℕ → ℕ → Clock → Strategy × Clock
create_by Algorithm.token_bucket limit period clock = made token (Token.init limit period clock)
create_by Algorithm.leaky_bucket limit period clock = made leaky (Leaky.init limit period clock)
create_by Algorithm.fixed_window limit period clock = made fixed (Fixed.init limit period clock)
create_by Algorithm.sliding_window limit period clock =
    made sliding (Sliding.init limit period clock)

unfoldable pub create_strategy : Config → Clock → Strategy × Clock
create_strategy config clock =
    create_by config.algorithm config.limit_for_period config.limit_refresh_period clock

unfoldable pub try_acquire : Strategy → Clock → Bool × Strategy × Clock
try_acquire (token b) clock = as_strategy token (Token.try_acquire b clock)
try_acquire (leaky b) clock = as_strategy leaky (Leaky.try_acquire b clock)
try_acquire (fixed b) clock = as_strategy fixed (Fixed.try_acquire b clock)
try_acquire (sliding b) clock = as_strategy sliding (Sliding.try_acquire b clock)

unfoldable pub seconds_until_available : Strategy → Clock → Quotient × Strategy × Clock
seconds_until_available (token b) clock = as_strategy token (Token.seconds_until_available b clock)
seconds_until_available (leaky b) clock = as_strategy leaky (Leaky.seconds_until_available b clock)
seconds_until_available (fixed b) clock = as_strategy fixed (Fixed.seconds_until_available b clock)
seconds_until_available (sliding b) clock =
    as_strategy sliding (Sliding.seconds_until_available b clock)

unfoldable pub permits : Strategy → Clock → ℕ × Strategy × Clock
permits (token b) clock = as_strategy token (Token.permits b clock)
permits (leaky b) clock = as_strategy leaky (Leaky.permits b clock)
permits (fixed b) clock = as_strategy fixed (Fixed.permits b clock)
permits (sliding b) clock = as_strategy sliding (Sliding.permits b clock)
