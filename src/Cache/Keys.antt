-- ===== src/Cache/Keys.antt =====
-- src/pysilience/cache.py: the keys in flight, and the keys that are computed.

use pysilience.Prelude.{true, false, ◌≡◌, ◌≢◌, sym, List, [], ◌∷◌, ◌++◌, All}
use mathlib.Core.Logic.{if_pos, if_neg}
use pysilience.Python.Sets.{contains, discard, contains-discard_ne}

module _ {ℓ} {K : Type ℓ} (dec : Discrete K) where
  pub contains-cons :
      (q k : K) (ks : List K) → contains dec q ks ≡ true → contains dec q (k ∷ ks) ≡ true
  unfolding contains
  contains-cons q k ks h = elim (dec k q) [
    | yes p ↦ if_pos (dec k q) p _ _
    | no p ↦ rw (if_neg (dec k q) p) h
  ]

  -- A key that joins the keys in flight, which did not have it, is none of theirs.
  pub join_others :
      (k : K) (ks : List K) (js : List K)
      → contains dec k ks ≡ false
      → All (λ j. contains dec j ks ≡ true) js
      → All (λ j. contains dec j (k ∷ ks) ≡ true) js × All (λ j. k ≢ j) js
  join_others k ks [] new h = (tt, tt)
  join_others k ks (j ∷ js) new h =
      let (held, others) = join_others k ks js new h.1 in
      ((contains-cons j k ks h.0, held), ((λ e. cc (new, (rw (← e) at h.0))), others))

  -- No key stands twice.
  abbrev pub Once : List K → Type ℓ
  Once [] = Unit
  Once (k ∷ ks) = All (λ j. k ≢ j) ks × Once ks

  pub All-drop {κ} :
      (P : K → Type κ) (before after : List K) (k : K)
      → All P (before ++ (k ∷ after))
      → All P (before ++ after)
  All-drop P [] after k h = h.1
  All-drop P (j ∷ before) after k h = (h.0, All-drop P before after k h.1)

  pub All-at {κ} :
      (P : K → Type κ) (before after : List K) (k : K) → All P (before ++ (k ∷ after)) → P k
  All-at P [] after k h = h.0
  All-at P (j ∷ before) after k h = All-at P before after k h.1

  pub Once-drop :
      (before after : List K) (k : K) → Once (before ++ (k ∷ after)) → Once (before ++ after)
  Once-drop [] after k h = h.1
  Once-drop (j ∷ before) after k h =
      (All-drop (λ x. j ≢ x) before after k h.0, Once-drop before after k h.1)

  -- The keys in flight without the key of one running call hold the keys of all others.
  pub discard-All :
      (before after : List K) (k : K) (ks : List K)
      → Once (before ++ (k ∷ after))
      → All (λ j. contains dec j ks ≡ true) (before ++ (k ∷ after))
      → All (λ j. contains dec j (discard dec k ks) ≡ true) (before ++ after)
  discard-All [] after k ks once h = others after once.0 h.1
    where
      others :
          (rest : List K)
          → All (λ j. k ≢ j) rest
          → All (λ j. contains dec j ks ≡ true) rest
          → All (λ j. contains dec j (discard dec k ks) ≡ true) rest
      others [] d g = tt
      others (j ∷ rest) d g =
          (rw (contains-discard_ne dec j k ks (λ e. d.0 (sym e))) g.0, others rest d.1 g.1)
  discard-All (j ∷ before) after k ks once h = (
    rw (contains-discard_ne dec j k ks (All-at (λ x. j ≢ x) before after k once.0)) h.0,
    discard-All before after k ks once.1 h.1,
  )
