-- ===== src/Tests/Factories.antt =====
-- The functions `create_...` at concrete arguments.
use text.Mathlib.TextEquality.{eq_iff}
use pysilience.Prelude.{ℕ, ◌≡◌, ◌≢◌, false, true, String, All}
use pysilience.Tests.Data.{clock}
use pysilience.Factories.{creations, IsCreation, create-IsCreation}

abbrev backend : ℕ
backend = 0

named : ◌≢◌ {A = String} "api" ""
named = λ e. let h : false ≡ true = (eq_iff "api" "").1 e in absurd cc

create-IsCreation_example :
    All (IsCreation ℕ 10 clock backend "api") (creations ℕ 10 clock backend "api")
create-IsCreation_example = create-IsCreation ℕ 10 clock backend "api" named
