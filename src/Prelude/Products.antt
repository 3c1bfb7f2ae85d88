-- ===== src/Prelude/Products.antt =====
-- Products that linear arithmetic does not read.
use Prim.Native.Nat.{ℕ, ◌+◌, ◌-◌, ◌*◌, ◌/◌, ◌≤◌, ◌<◌}
use mathlib.Core.Path.{◌≡◌, ap}
use native.Mathlib.Nat.{div-mul-le_self, lt-div-mul-add}
use native.Mathlib.Omega.{arith}

pub sub-mul_add : (a b c : ℕ) → a ≤ b → (b - a) * c + a * c ≡ b * c
sub-mul_add a b c h = let e : b - a + a ≡ b = omega arith in omega (arith, ap (λ (t : ℕ). t * c) e)

pub mul_mono : (a b c : ℕ) → a ≤ b → a * c ≤ b * c
mul_mono a b c h = let e = sub-mul_add a b c h in omega arith

-- The whole periods in a time that is no shorter than one.
pub whole_windows : (t p : ℕ) → 0 < p → p ≤ t → (t / p * p ≤ t) × (p ≤ t / p * p)
whole_windows t p h le =
    let above : t < t / p * p + p = lt-div-mul-add h in (div-mul-le_self t p, grind arith)

pub mul_split : (a b c : ℕ) → a * c ≤ (a - b) * c + b * c
mul_split a b c = let h = mul_mono a (a - b + b) c (omega arith) in omega arith
