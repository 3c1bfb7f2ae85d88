-- ===== src/Python/Int.antt =====
-- Signed arguments, which the configuration checks compare with bounds. `negsuc n` is -(n + 1).
use native.Mathlib.Decide.{ℕ_discrete}
use pysilience.Prelude.{ℕ, Bool, true, ltb, leb}

pub data ℤ : Type 0 where
  pos : ℕ → ℤ
  negsuc : ℕ → ℤ

-- `a < n`
abbrev pub ltb_ℤ : ℤ → ℕ → Bool
ltb_ℤ (pos a) n = ltb a n
ltb_ℤ (negsuc _) n = true

-- `a <= n`
abbrev pub leb_ℤ : ℤ → ℕ → Bool
leb_ℤ (pos a) n = leb a n
leb_ℤ (negsuc _) n = true

-- The number that a checked argument stands for.
abbrev pub to_ℕ : ℤ → ℕ
to_ℕ (pos a) = a
to_ℕ (negsuc _) = 0

unfoldable pub ℤ-discrete : Discrete ℤ
ℤ-discrete = hlevel ℕ_discrete
