-- ===== src/RateLimiter/Leaky.antt =====
-- src/pysilience/ratelimiter.py: `_LeakyBucketStrategy`. Points of time are kept exactly, as
-- `next_scaled`, the time times the limit; the interval `period / limit` is then `period`.
use pysilience.Prelude.{
  ℕ, zero, suc, ◌+◌, ◌-◌, ◌*◌, ◌≤◌, ◌<◌, ◌≡◌, refl, Bool, true, false, leb, arith, if◌then◌else◌,
  mul_mono, ◌∙◌, Bool-cases, inl, inr, List, [], ◌∷◌, All, leb→le,
}
use pysilience.Python.{Clock, monotonic, Quotient}

pub record LeakyBucket : Type 0 where
  pub limit : ℕ
  pub period : ℕ
  pub next_scaled : ℕ

-- `__init__`
unfoldable pub init : ℕ → ℕ → Clock → LeakyBucket × Clock
init limit period clock =
    let clock' = monotonic clock in
    (record { limit = limit; period = period; next_scaled = clock'.now * limit }, clock')

-- `try_acquire`
unfoldable pub try_acquire : LeakyBucket → Clock → Bool × LeakyBucket × Clock
try_acquire b clock =
    let clock' = monotonic clock in
    if leb b.next_scaled (clock'.now * b.limit)
    then (true, record b { next_scaled = clock'.now * b.limit + b.period }, clock')
    else (false, b, clock')

-- `seconds_until_available`
unfoldable pub seconds_until_available : LeakyBucket → Clock → Quotient × LeakyBucket × Clock
seconds_until_available b clock =
    let clock' = monotonic clock in
    (record { num = b.next_scaled - clock'.now * b.limit; den = b.limit }, b, clock')

-- `permits`
unfoldable pub permits : LeakyBucket → Clock → ℕ × LeakyBucket × Clock
permits b clock =
    let clock' = monotonic clock in
    ((if leb b.next_scaled (clock'.now * b.limit) then 1 else 0), b, clock')

-- The next permit comes at most one interval from now.
pub record IsValid (b : LeakyBucket) (clock : Clock) : Type 0 where
  pub limit_pos : 0 < b.limit
  pub soon : b.next_scaled ≤ clock.now * b.limit + b.period

-- Callers one after the other: how many of `n` calls of `try_acquire` are granted, and
-- what is left.
unfoldable pub try_all : ℕ → LeakyBucket → Clock → ℕ × LeakyBucket × Clock
try_all zero b clock = (0, b, clock)
try_all (suc n) b clock =
    let (granted, b', clock') = try_acquire b clock in
    let (more, b'', clock'') = try_all n b' clock' in
    ((if granted then suc more else more), b'', clock'')

-- Each grant moves the next permit by at least one interval.
record Spent (granted : ℕ) (before after : LeakyBucket) : Type 0 where
  same_limit : after.limit ≡ before.limit
  same_period : after.period ≡ before.period
  spent : granted * before.period + before.next_scaled ≤ after.next_scaled

try_acquire-Spent :
    (b : LeakyBucket) (clock : Clock)
    → IsValid b clock
    → let (granted, b', clock') = try_acquire b clock in
      IsValid b' clock' × Spent (if granted then 1 else 0) b b'
unfolding try_acquire
try_acquire-Spent b clock h =
    let later = mul_mono clock.now (monotonic clock).now b.limit (omega arith) in
    elim (Bool-cases (leb b.next_scaled ((monotonic clock).now * b.limit))) [
      | inl free ↦ rw free (ground (arith, later), ground arith)
      | inr early ↦ rw early (ground (arith, later), ground arith)
    ]

add-Spent :
    (granted : Bool) (more : ℕ) (b b' b'' : LeakyBucket)
    → Spent (if granted then 1 else 0) b b'
    → Spent more b' b''
    → Spent (if granted then suc more else more) b b''
add-Spent granted more b b' b'' one rest =
    let spent : more * b.period + b'.next_scaled ≤ b''.next_scaled =
      rw one.same_period at rest.spent in
    record {
      same_limit = rest.same_limit ∙ one.same_limit;
      same_period = rest.same_period ∙ one.same_period;
      spent = elim (Bool-cases granted) [
        | inl yes_granted ↦ rw yes_granted (omega (arith, spent, (rw yes_granted at one.spent)))
        | inr not_granted ↦ rw not_granted (omega (arith, spent, (rw not_granted at one.spent)))
      ];
    }

try_all-Spent :
    (n : ℕ) (b : LeakyBucket) (clock : Clock)
    → IsValid b clock
    → let (granted, b', clock') = try_all n b clock in Spent granted b b' × IsValid b' clock'
unfolding try_all
try_all-Spent zero b clock h =
    (record { same_limit = refl; same_period = refl; spent = omega arith }, h)
try_all-Spent (suc n) b clock h =
    let (granted, b', clock') = try_acquire b clock in
    let (valid, one) = try_acquire-Spent b clock h in
    let (more, b'', clock'') = try_all n b' clock' in
    let (rest, valid') = try_all-Spent n b' clock' valid in
    (add-Spent granted more b b' b'' one rest, valid')

-- However the calls are spread over the time, each grant but one takes up an interval of the time
-- since the bucket's next permit was due.
pub leaky-bound :
    (n : ℕ) (b : LeakyBucket) (clock : Clock)
    → IsValid b clock
    → let (granted, b', clock') = try_all n b clock in
      granted * b.period + b.next_scaled ≤ clock'.now * b.limit + b.period
leaky-bound n b clock h =
    let (granted, b', clock') = try_all n b clock in
    let (all, valid) = try_all-Spent n b clock h in
    let soon : b'.next_scaled ≤ clock'.now * b.limit + b.period =
      rw (all.same_limit, all.same_period) at valid.soon in
    omega (arith, all.spent, soon)

-- The times at which `n` calls of `try_acquire` one after the other are granted.
abbrev pub granted_at : Bool → ℕ → List ℕ → List ℕ
granted_at true now times = now ∷ times
granted_at false now times = times

unfoldable pub grant_times : ℕ → LeakyBucket → Clock → List ℕ
grant_times zero b clock = []
grant_times (suc n) b clock =
    let (granted, b', clock') = try_acquire b clock in
    granted_at granted clock'.now (grant_times n b' clock')

-- Any two of the times are at least an interval apart.
abbrev pub IsSpaced : LeakyBucket → List ℕ → Type 0
IsSpaced b [] = Unit
IsSpaced b (t ∷ times) = All (λ u. t * b.limit + b.period ≤ u * b.limit) times × IsSpaced b times

later-All :
    (low next limit : ℕ) (times : List ℕ)
    → low ≤ next
    → All (λ u. next ≤ u * limit) times
    → All (λ u. low ≤ u * limit) times
later-All low next limit [] le h = tt
later-All low next limit (u ∷ times) le h =
    (omega (arith, h.0), later-All low next limit times le h.1)

-- However the calls are spread over the time: the first grant comes no earlier than the bucket's next
-- permit is due, and any two grants are at least one interval `period / limit` apart, so that idle
-- time earns no burst.
pub leaky-IsSpaced :
    (n : ℕ) (b : LeakyBucket) (clock : Clock)
    → All (λ t. b.next_scaled ≤ t * b.limit) (grant_times n b clock)
      × IsSpaced b (grant_times n b clock)
unfolding grant_times try_acquire
leaky-IsSpaced zero b clock = (tt, tt)
leaky-IsSpaced (suc n) b clock =
    let now = (monotonic clock).now in
    elim (Bool-cases (leb b.next_scaled (now * b.limit))) [
      | inl free ↦
          let next : LeakyBucket = record b { next_scaled = now * b.limit + b.period } in
          let rest = leaky-IsSpaced n next (monotonic clock) in
          let due : b.next_scaled ≤ now * b.limit = leb→le _ _ free in
          rw free (
            (due, later-All b.next_scaled next.next_scaled b.limit _ (omega arith) rest.0),
            (rest.0, rest.1),
          )
      | inr early ↦ rw early (leaky-IsSpaced n b (monotonic clock))
    ]
