-- ===== src/Python/Sets.antt =====
-- Sets, as lists of their elements.
use pysilience.Prelude.{
  ℕ, ◌+◌, Bool, true, false, ◌≡◌, ◌≢◌, refl, sym, ◌∙◌, List, [], ◌∷◌, ◌++◌, if◌then◌else◌,
  Bool-cases, inl, inr,
}
use mathlib.Core.Logic.{ite, if_pos, if_neg}

module _ {ℓ} {K : Type ℓ} (dec : Discrete K) where
  -- `key in keys`
  unfoldable pub contains : K → List K → Bool
  contains k [] = false
  contains k (j ∷ ks) = ite (dec j k) true (contains k ks)

  -- `keys.discard(key)`
  unfoldable pub discard : K → List K → List K
  discard k [] = []
  discard k (j ∷ ks) = let rest = discard k ks in ite (dec j k) rest (j ∷ rest)

  -- `keys.add(key)`
  unfoldable pub add : K → List K → List K
  add k ks = if contains k ks then ks else k ∷ ks

  pub contains-discard_ne :
      (q k : K) (ks : List K) → q ≢ k → contains q (discard k ks) ≡ contains q ks
  unfolding contains discard
  contains-discard_ne q k [] h = refl
  contains-discard_ne q k (j ∷ ks) h =
      let rest = contains-discard_ne q k ks h in
      elim (dec j k) [
        | yes p ↦ rw (if_pos (dec j k) p, if_neg (dec j q) (λ e. h (sym e ∙ p))) rest
        | no p ↦ rw (if_neg (dec j k) p, rest)
      ]

  pub contains_self : (k : K) (ks : List K) → contains k (k ∷ ks) ≡ true
  unfolding contains
  contains_self k ks = if_pos (dec k k) refl _ _

  pub contains-discard_self : (k : K) (ks : List K) → contains k (discard k ks) ≡ false
  unfolding contains discard
  contains-discard_self k [] = refl
  contains-discard_self k (j ∷ ks) =
      let rest = contains-discard_self k ks in
      elim (dec j k) [
        | yes p ↦ rw (if_pos (dec j k) p) rest
        | no p ↦ rw (if_neg (dec j k) p, if_neg (dec j k) p) rest
      ]

  pub contains-add_self : (k : K) (ks : List K) → contains k (add k ks) ≡ true
  unfolding add
  contains-add_self k ks = elim (Bool-cases (contains k ks)) [
    | inl held ↦ rw held held
    | inr new ↦ rw new (contains_self k ks)
  ]

  pub contains-add_ne : (q k : K) (ks : List K) → k ≢ q → contains q (add k ks) ≡ contains q ks
  unfolding add contains
  contains-add_ne q k ks h = elim (Bool-cases (contains k ks)) [
    | inl held ↦ rw held refl
    | inr new ↦ rw (new, if_neg (dec k q) h) refl
  ]

  -- How often an element stands in a list.
  unfoldable pub count : K → List K → ℕ
  count k [] = 0
  count k (j ∷ ks) = let rest = count k ks in ite (dec j k) (rest + 1) rest

  pub count_self : (k : K) (ks : List K) → count k (k ∷ ks) ≡ count k ks + 1
  unfolding count
  count_self k ks = if_pos (dec k k) refl _ _

  pub count_ne : (q k : K) (ks : List K) → k ≢ q → count q (k ∷ ks) ≡ count q ks
  unfolding count
  count_ne q k ks h = if_neg (dec k q) h _ _

  pub count-drop_self :
      (k : K) (before after : List K)
      → count k (before ++ (k ∷ after)) ≡ count k (before ++ after) + 1
  unfolding count
  count-drop_self k [] after = count_self k after
  count-drop_self k (j ∷ before) after =
      let rest = count-drop_self k before after in
      elim (dec j k) [
        | yes p ↦ rw (if_pos (dec j k) p, if_pos (dec j k) p, rest) refl
        | no p ↦ rw (if_neg (dec j k) p, if_neg (dec j k) p) rest
      ]

  pub count-drop_ne :
      (q k : K) (before after : List K)
      → k ≢ q
      → count q (before ++ (k ∷ after)) ≡ count q (before ++ after)
  unfolding count
  count-drop_ne q k [] after h = count_ne q k after h
  count-drop_ne q k (j ∷ before) after h =
      let rest = count-drop_ne q k before after h in
      elim (dec j q) [
        | yes p ↦ rw (if_pos (dec j q) p, if_pos (dec j q) p, rest) refl
        | no p ↦ rw (if_neg (dec j q) p, if_neg (dec j q) p) rest
      ]
