-- ===== src/Python/Names.antt =====
-- Names: `name or default`, for an optional name, where the empty name counts as none, and equality
-- as a decision.
use pysilience.Prelude.{
  String, Bool, true, false, Option, none, some, ◌≡◌, ◌↔◌, refl, if◌then◌else◌,
}
use mathlib.Core.Bool.{false≢true}
use text.Mathlib.Text.{◌==◌ as str_eq}
use text.Mathlib.TextEquality.{eq_iff}

abbrev pub or_default : Option String → String → String
or_default none default = default
or_default (some name) default = if str_eq name "" then default else name

unfoldable decide_by {ℓ} : {A : Type ℓ} (b : Bool) → (b ≡ true) ↔ A → Dec A
decide_by true (to, from) = yes (to refl)
decide_by false (to, from) = no (λ a. false≢true (from a))

unfoldable pub String-discrete : Discrete String
unfolding decide_by
String-discrete s t = decide_by (str_eq s t) (eq_iff s t)
