-- ===== src/Retry/Backoff.antt =====
-- src/pysilience/retry.py: the waits of `_computed_wait`.
use pysilience.Prelude.{
  ℕ, zero, suc, ◌+◌, ◌-◌, ◌*◌, ◌^◌, ◌≤◌, ◌<◌, ◌≡◌, ap, inl, inr, false, some, arith, Bool-cases,
  Option-cases, ltb, leb, leb→le, ◌&&◌,
}
use native.Mathlib.Nat.{
  pow-suc, one-le-pow, le_of_mul-le-mul_right, mul-le-mul_right, mul-le-mul_left, mul-le-mul,
  le_refl,
}
use pysilience.Python.{ok, Quotient, Leq, of_ℕ, mul, pow, leq, minq, maxq}
use pysilience.Retry.Config.{Config}
use pysilience.Retry.Loop.{
  Uniform, capped, base_wait, jitter_lo, jitter_hi, jitters, overflows, computed_wait,
  wait_seconds_before_retry,
}

minq-Leq_right : (q r : Quotient) → Leq (minq q r) r
minq-Leq_right q r = ground arith

cancel :
    (qn qd rn rd tn td : ℕ) → 0 < qd → qn * rd ≤ rn * qd → tn * qd ≤ qn * td → tn * rd ≤ rn * td
cancel qn qd rn rd tn td p h k =
    le_of_mul-le-mul_right (omega (arith, mul-le-mul_right rd k, mul-le-mul_right td h)) p

-- An order of quotients survives a common cap.
minq_mono : (q r t : Quotient) → 0 < q.den → Leq q r → Leq (minq q t) (minq r t)
minq_mono q r t p h = elim (Bool-cases (leq q t)) [
  | inl low ↦ elim (Bool-cases (leq r t)) [
    | inl low' ↦ rw (low, low') h
    | inr high' ↦ rw (low, high') (leb→le _ _ low)
  ]
  | inr high ↦ elim (Bool-cases (leq r t)) [
    | inl low' ↦
        let over : t.num * q.den ≤ q.num * t.den = ground arith in
        rw (high, low') (cancel q.num q.den r.num r.den t.num t.den p h over)
    | inr high' ↦ rw (high, high') (le_refl _)
  ]
]

-- Before jitter, a wait is at most `max_interval`, where that is set.
base_wait_capped :
    (c : Config) (k cap : ℕ) → c.max_interval ≡ some cap → Leq (base_wait c k) (of_ℕ cap)
unfolding base_wait
base_wait_capped c k cap e =
    rw (e, capped) (minq-Leq_right (mul (of_ℕ c.initial_interval) (pow c.multiplier k)) (of_ℕ cap))

power_step : (i n d a b : ℕ) → d ≤ n → i * a * (1 * (b * d)) ≤ i * (a * n) * (1 * b)
power_step i n d a b h = omega (arith, mul-le-mul_left (i * a * b) h)

base_wait_mono :
    (c : Config) (k : ℕ)
    → 0 < c.multiplier.den
    → c.multiplier.den ≤ c.multiplier.num
    → Leq (base_wait c k) (base_wait c (suc k))
unfolding base_wait
base_wait_mono c k p h = elim (Option-cases c.max_interval) [
  | inl no_cap ↦ rw (no_cap, capped) raw
  | inr (cap, e) ↦ rw (e, capped) (minq_mono _ _ (of_ℕ cap) den_pos raw)
]
  where
    m : Quotient
    m = c.multiplier

    raw :
        Leq
          (mul (of_ℕ c.initial_interval) (pow m k))
          (mul (of_ℕ c.initial_interval) (pow m (suc k)))
    raw =
        rw (pow-suc m.num k, pow-suc m.den k)
          (power_step c.initial_interval m.num m.den (m.num ^ k) (m.den ^ k) h)

    den_pos : 0 < 1 * m.den ^ k
    den_pos = omega (arith, one-le-pow k m.den p)

-- `max(0.0, q)` is `q`, up to how zero is written.
maxq-Leq : (q t : Quotient) → Leq q t → Leq (maxq (of_ℕ 0) q) t
maxq-Leq q t h = ground arith

-- What Python documents of `random.uniform(lo, hi)`: the result lies between the two.
pub record IsUniform (u : Uniform) : Type 0 where
  pub from_lo : (lo hi : Quotient) (n : ℕ) → Leq lo hi → Leq lo (u lo hi n)
  pub to_hi : (lo hi : Quotient) (n : ℕ) → Leq lo hi → Leq (u lo hi n) hi

mul-Leq : (q r s t : Quotient) → Leq q r → Leq s t → Leq (mul q s) (mul r t)
mul-Leq q r s t h k = omega (arith, mul-le-mul h k)

lo-Leq_hi : (c : Config) → Leq (jitter_lo c) (jitter_hi c)
lo-Leq_hi c = mul-le-mul_right c.jitter_ratio.den (omega arith)

scaled_up :
    (q : Quotient) (cap r d : ℕ) → q.num * 1 ≤ cap * q.den → q.num * (1 * d) ≤ cap * (d + r) * q.den
scaled_up q cap r d h = omega (arith, mul-le-mul_right d h)

computed_wait-Leq_cap :
    (u : Uniform) (c : Config) (draw n cap : ℕ)
    → IsUniform u
    → c.max_interval ≡ some cap
    → Leq (computed_wait u c draw n) (mul (of_ℕ cap) (jitter_hi c))
unfolding computed_wait
computed_wait-Leq_cap u c draw n cap law e =
    let raw = base_wait c (n - 1) in
    let low : Leq raw (of_ℕ cap) = base_wait_capped c (n - 1) cap e in
    elim (Bool-cases (ltb n 1)) [
      | inl first ↦ rw first (omega arith)
      | inr later ↦ rw later (elim (Bool-cases (jitters c)) [
        | inl drawn ↦ rw drawn (
            maxq-Leq _ _ (
              mul-Leq raw (of_ℕ cap) _ (jitter_hi c) low
                (law.to_hi (jitter_lo c) (jitter_hi c) draw (lo-Leq_hi c))))
        | inr fixed ↦ rw fixed (
            maxq-Leq raw (mul (of_ℕ cap) (jitter_hi c))
              (scaled_up raw cap c.jitter_ratio.num c.jitter_ratio.den low))
      ])
    ]

wait_plain :
    (u : Uniform) (c : Config) (draw n : ℕ)
    → c.jitter ≡ false
    → computed_wait u c draw (suc n) ≡ maxq (of_ℕ 0) (base_wait c n)
unfolding computed_wait
wait_plain u c draw n e =
    let same : suc n - 1 ≡ n = omega arith in
    let later : ltb (suc n) 1 ≡ false = ground arith in
    let fixed : jitters c ≡ false = ap (λ j. j && ltb 0 c.jitter_ratio.num) e in
    rw (later, same, fixed)

wait_first :
    (u : Uniform) (c : Config) (draw : ℕ)
    → Leq (computed_wait u c draw 0) (computed_wait u c draw 1)
unfolding computed_wait
wait_first u c draw = omega arith

maxq_mono : (q r : Quotient) → 0 < r.den → Leq q r → Leq (maxq (of_ℕ 0) q) (maxq (of_ℕ 0) r)
maxq_mono q r p h = elim (Bool-cases (leq r (of_ℕ 0))) [
  | inl none_left ↦ rw none_left (zero_of (ground arith))
  | inr some_left ↦ rw some_left (maxq-Leq q r h)
]
  where
    zero_bound : r.num ≡ 0 → q.num * r.den ≤ 0 * r.den
    zero_bound z = let h' : q.num * r.den ≤ 0 * q.den = rw z at h in omega arith

    zero_of : r.num ≡ 0 → Leq (maxq (of_ℕ 0) q) (of_ℕ 0)
    zero_of z =
        let gone : q.num ≤ 0 = le_of_mul-le-mul_right {n = 0} (zero_bound z) p in ground arith

base_wait_den : (c : Config) (k : ℕ) → 0 < c.multiplier.den → 0 < (base_wait c k).den
unfolding base_wait
base_wait_den c k p = ground (arith, one-le-pow k c.multiplier.den p)

computed_wait_mono :
    (u : Uniform) (c : Config) (draw n : ℕ)
    → c.jitter ≡ false
    → 0 < c.multiplier.den
    → c.multiplier.den ≤ c.multiplier.num
    → Leq (computed_wait u c draw n) (computed_wait u c draw (suc n))
computed_wait_mono u c draw zero e p h = wait_first u c draw
computed_wait_mono u c draw (suc n) e p h =
    rw (wait_plain u c draw n e, wait_plain u c draw (suc n) e)
      (maxq_mono _ _ (base_wait_den c (suc n) p) (base_wait_mono c n p h))

-- A wait that is returned is the computed one.
wait_seconds-eq-ok :
    (u : Uniform) (c : Config) (draw n : ℕ) (wait : Quotient)
    → wait_seconds_before_retry u c draw n ≡ ok wait
    → computed_wait u c draw n ≡ wait
unfolding wait_seconds_before_retry
wait_seconds-eq-ok u c draw n wait e =
    elim (Bool-cases (leb 1 n && overflows c.multiplier (n - 1))) [
      | inl over ↦ absurd (ground (arith, rw over at e))
      | inr fits ↦ ground (arith, rw fits at e)
    ]

-- If `max_interval` is set and `random.uniform` keeps to its bounds, a wait that is returned is at
-- most `max_interval * (1 + jitter_ratio)`, however the jitter falls.
pub wait_seconds-Leq_cap :
    (u : Uniform) (c : Config) (draw n cap : ℕ) (wait : Quotient)
    → IsUniform u
    → c.max_interval ≡ some cap
    → wait_seconds_before_retry u c draw n ≡ ok wait
    → Leq wait (mul (of_ℕ cap) (jitter_hi c))
wait_seconds-Leq_cap u c draw n cap wait law e returned =
    rw (← wait_seconds-eq-ok u c draw n wait returned) (computed_wait-Leq_cap u c draw n cap law e)

-- Without jitter, and with a multiplier of at least one, each wait that is returned is at least the
-- one before it.
pub wait_seconds_mono :
    (u : Uniform) (c : Config) (draw n : ℕ) (wait wait' : Quotient)
    → c.jitter ≡ false
    → 0 < c.multiplier.den
    → c.multiplier.den ≤ c.multiplier.num
    → wait_seconds_before_retry u c draw n ≡ ok wait
    → wait_seconds_before_retry u c draw (suc n) ≡ ok wait'
    → Leq wait wait'
wait_seconds_mono u c draw n wait wait' e p h returned returned' =
    rw
      (
        ← wait_seconds-eq-ok u c draw n wait returned,
        ← wait_seconds-eq-ok u c draw (suc n) wait' returned',
      )
      (computed_wait_mono u c draw n e p h)
