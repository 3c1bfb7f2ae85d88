-- ===== src/Python/Quotients.antt =====
-- Exact quotients of numbers, in place of non-negative floats.
use pysilience.Prelude.{◌+◌, ◌-◌, ◌/◌, ℕ, ◌*◌, ◌^◌, ◌≤◌, Bool, leb, if◌then◌else◌}

pub record Quotient : Type 0 where
  pub num : ℕ
  pub den : ℕ

-- `q <= r`, by multiplying out.
abbrev pub leq : Quotient → Quotient → Bool
leq q r = leb (q.num * r.den) (r.num * q.den)

abbrev pub Leq : Quotient → Quotient → Type 0
Leq q r = q.num * r.den ≤ r.num * q.den

abbrev pub of_ℕ : ℕ → Quotient
of_ℕ n = record { num = n; den = 1 }

abbrev pub mul : Quotient → Quotient → Quotient
mul q r = record { num = q.num * r.num; den = q.den * r.den }

abbrev pub pow : Quotient → ℕ → Quotient
pow q k = record { num = q.num ^ k; den = q.den ^ k }

-- `min(q, r)`: the first unless the second is smaller.
abbrev pub minq : Quotient → Quotient → Quotient
minq q r = if leq q r then q else r

abbrev pub maxq : Quotient → Quotient → Quotient
maxq q r = if leq r q then q else r

-- The whole ticks that a sleep of `q` ticks lasts at least.
abbrev pub ceil : Quotient → ℕ
ceil q = (q.num + q.den - 1) / q.den
